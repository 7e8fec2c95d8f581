-- ===== src/Domain/Delivery.antt =====
-- What the server keeps for a user's devices (internal/domain/to_device.go, backup.go and
-- sync_token.go) and the rows of read_receipts and typing_state.
use dragonite.Base.{String, Bool}
use dragonite.Base.Int.{ℤ}

pub record ToDeviceMessage : Type 0 where
  pub id : ℤ
  pub user_id : String
  pub device_id : String
  pub sender : String
  pub tipo : String
  pub content : String

pub record SyncToken : Type 0 where
  pub timeline_position : ℤ
  pub presence_position : ℤ
  pub receipt_position : ℤ
  pub to_device_position : ℤ

-- The etag is the number whose text the program stores. CreatedAt, which is only shown, is left out.
pub record VersaoBackup : Type 0 where
  pub id_versao : ℤ
  pub id_usuario : String
  pub algorithm : String
  pub auth_data : String
  pub total : ℤ
  pub etag : ℤ

pub record ChaveBackup : Type 0 where
  pub id_versao : ℤ
  pub id_canal : String
  pub id_sessao : String
  pub first_message_index : ℤ
  pub forwarded_count : ℤ
  pub is_verified : Bool
  pub session_data : String

pub record Receipt : Type 0 where
  pub evento : String
  pub ts : ℤ

pub record Typing : Type 0 where
  pub is_typing : Bool
  pub expires_at : ℤ

-- A row of AccountData: what a user keeps for a room.
pub record AccountData : Type 0 where
  pub usuario : String
  pub canal : String
  pub tipo : String
  pub content : String
