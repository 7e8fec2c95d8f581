-- ===== src/Domain/Keys.antt =====
-- The keys of devices (internal/domain/chaves_dispositivos.go), with the number
-- of the row where the table has one.
use dragonite.Base.{String, Bool, List, ◌≡◌, ◌↔◌, true, ◌&&◌, ◌==◌, arith, Eq, string_eq}
use dragonite.Base.Int.{ℤ}
use text.Mathlib.TextEquality.{eq_iff}

pub record Dispositivo : Type 0 where
  pub usuario : String
  pub nome : String

pub record ChavesDispositivo : Type 0 where
  pub dispositivo_id : String
  pub usuario_id : String
  pub algorithms : List String
  pub keys_json : String
  pub signatures : String

pub record ChaveUsoUnico : Type 0 where
  pub id : ℤ
  pub dispositivo_id : String
  pub key_id : String
  pub algorithm : String
  pub key_data : String

-- The primary key of Chave_Fallback.
pub record FallbackId : Type 0 where
  pub dispositivo : String
  pub algorithm : String

pub record ChaveFallback : Type 0 where
  pub key_id : String
  pub key_data : String
  pub usada : Bool

abbrev pub fallback_id_beq : FallbackId → FallbackId → Bool
fallback_id_beq a b = a.dispositivo == b.dispositivo && a.algorithm == b.algorithm

pub fallback_id_beq_iff : (a b : FallbackId) → (fallback_id_beq a b ≡ true) ↔ (a ≡ b)
fallback_id_beq_iff a b =
    ground (arith, eq_iff a.dispositivo b.dispositivo, eq_iff a.algorithm b.algorithm)

instance abbrev pub fallback_id_eq : Eq FallbackId
fallback_id_eq = record { beq = fallback_id_beq; beq_iff = fallback_id_beq_iff }
