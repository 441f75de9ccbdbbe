-- ===== src/Durable/Types.antt =====
-- The data of mrp/durable_buffer.go: handles, contents, policies and errors. A byte is a number below
-- 256, a text is the list of its bytes, and an `int64` is its bit pattern.
use map_reduce_rpc.Prelude.{
  ℕ, ◌<◌, ◌^◌, ◌≡◌, ◌↔◌, arith, Bool, ◌&&◌, List, length, eqb, Eq, All, true,
}

pub record Handle : Type 0 where
  pub id : ℕ
  pub time_stamp : ℕ

pub record Content : Type 0 where
  pub id : Handle
  pub eof : Bool
  pub bytes : List ℕ

abbrev pub handle_beq : Handle → Handle → Bool
handle_beq a b = eqb a.id b.id && eqb a.time_stamp b.time_stamp

pub handle_beq_iff : (a b : Handle) → (handle_beq a b ≡ true) ↔ (a ≡ b)
handle_beq_iff a b = ground arith

instance abbrev pub handle_eq : Eq Handle
handle_eq = record { same = handle_beq; same_iff = handle_beq_iff }

-- `OverflowPolicy`, a `uint32`.
abbrev pub overflow_drop_oldest : ℕ
overflow_drop_oldest = 0

abbrev pub overflow_reject : ℕ
overflow_reject = 1

pub data Error : Type 0 where
  invalid_handle buffer_full buffer_full_after_retries : Error
  mkdir_failed open_failed write_failed sync_failed : Error

abbrev pub IsByte : ℕ → Type 0
IsByte b = b < 256

abbrev pub IsHandle : Handle → Type 0
IsHandle h = (h.id < 2 ^ 64) × (h.time_stamp < 2 ^ 64)

-- What Go's types allow, for data of less than 4 GiB.
pub record IsContent (c : Content) : Type 0 where
  pub handle : IsHandle c.id
  pub short : length c.bytes < 2 ^ 32
  pub bytes : All IsByte c.bytes
