-- ===== src/Blob/Valid.antt =====
-- The state of an open blob, and what SQLite promises of a blob's size (src/blob.c).
use apsw.Prelude.{
  ℕ, ◌+◌, ◌-◌, ◌≤◌, ◌^◌, ◌≡◌, refl, Bool, false, Option, none, some, arith, ◌⊎◌, inl, inr,
  Bool-cases, true, List, min, if◌then◌else◌, ltb,
}
use apsw.Prelude.Int.{ℤ, pos, negsuc, pos_part, ◌+ℤ◌, ◌-ℤ◌, ◌≤ℤ◌, ltb_ℤ, wrap32, IsInt32}
use apsw.Errors.{ExcClass}
use apsw.World.{World, threading_violation, err_format}
use apsw.Blob.{BlobApi, Blob, Ret, guarded, on_open, read_length}

-- The size is a C `int` and not negative, and a read or a write that succeeds does not change it.
pub record BlobLaws {S : Type 0} (api : BlobApi S) : Type 0 where
  pub size_nonneg : (d : S) (h : ℕ) → pos 0 ≤ℤ api.blob_bytes d h
  pub size_int : (d : S) (h : ℕ) → IsInt32 (api.blob_bytes d h)
  pub read_keeps :
      (d : S) (h : ℕ) (n off : ℤ)
      → (api.blob_read d h n off).0 ≡ 0
      → api.blob_bytes (api.blob_read d h n off).2 h ≡ api.blob_bytes d h
  pub write_keeps :
      (d : S) (h : ℕ) (bytes : List ℕ) (off : ℤ)
      → (api.blob_write d h bytes off).0 ≡ 0
      → api.blob_bytes (api.blob_write d h bytes off).2 h ≡ api.blob_bytes d h

-- The offset lies in the blob.
abbrev pub Within : ℤ → ℤ → Type 0
Within off size = (pos 0 ≤ℤ off) × (off ≤ℤ size)

pub wrap32_of_IsInt32 : (a : ℤ) → IsInt32 a → wrap32 a ≡ a
unfolding wrap32
wrap32_of_IsInt32 (pos n) h = ground arith
wrap32_of_IsInt32 (negsuc n) h = ground arith

-- A sum of two C `int`s, one of them not negative, wraps only to a negative number.
pub wrap32_sum :
    (a b : ℤ)
    → IsInt32 a
    → IsInt32 b
    → pos 0 ≤ℤ a
    → ((wrap32 (a +ℤ b) ≡ a +ℤ b) × IsInt32 (a +ℤ b))
      ⊎ ((ltb_ℤ (wrap32 (a +ℤ b)) (pos 0) ≡ true) × (pos (2 ^ 31) ≤ℤ a +ℤ b))
unfolding wrap32 ◌+ℤ◌
wrap32_sum (pos n) (pos m) h g le = elim (Bool-cases (ltb (n + m) (2 ^ 31))) [
  | inl e ↦ inl (ground arith, ground arith)
  | inr e ↦ inr (ground arith, ground arith)
]
wrap32_sum (pos n) (negsuc m) h g le = inl (ground arith, ground arith)
wrap32_sum (negsuc n) b h g le = absurd (omega arith)

-- `read` asks for what the caller wants, and at most for what is there.
pub read_length-min :
    (size off : ℕ) (len : ℤ)
    → off ≤ size
    → read_length (pos size) (pos off) len
      ≡ (if ltb_ℤ len (pos 0) then pos (size - off) else pos (min (pos_part len) (size - off)))
unfolding read_length ◌+ℤ◌ ◌-ℤ◌
read_length-min size off (pos n) h = ground arith
read_length-min size off (negsuc n) h = ground arith

module _ {S : Type 0} (api : BlobApi S) where
  guarded_rule {ℓ κ} :
      {A : Type ℓ} (P : Ret api A → Type κ) (used : Bool) (p : Option ℕ) (b : Blob) (w : World S)
      (body : ℕ → Ret api A)
      → P (none, b, threading_violation w)
      → P (none, b, err_format ExcClass.value_error "I/O operation on closed blob" w)
      → ((h : ℕ) → p ≡ some h → used ≡ false → P (body h))
      → P (guarded api used p b w body)
  unfolding guarded
  guarded_rule P true p b w body used closed open_body = used
  guarded_rule P false none b w body used closed open_body = closed
  guarded_rule P false (some h) b w body used closed open_body = open_body h refl refl

  -- What holds of the two refusals and of the body holds of a guarded method.
  pub on_open_rule {ℓ κ} :
      {A : Type ℓ} (P : Ret api A → Type κ) (b : Blob) (w : World S) (body : ℕ → Ret api A)
      → P (none, b, threading_violation w)
      → P (none, b, err_format ExcClass.value_error "I/O operation on closed blob" w)
      → ((h : ℕ) → b.p_blob ≡ some h → b.inuse ≡ false → P (body h))
      → P (on_open api b w body)
  unfolding on_open
  on_open_rule P b w body = guarded_rule P b.inuse b.p_blob b w body

  pub on_open_lem {ℓ} :
      {A : Type ℓ} (b : Blob) (w : World S) (body : ℕ → Ret api A) (h : ℕ)
      → b.p_blob ≡ some h
      → b.inuse ≡ false
      → on_open api b w body ≡ body h
  unfolding on_open guarded
  on_open_lem b w body h e f = ground arith
