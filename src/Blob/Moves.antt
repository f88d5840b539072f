-- ===== src/Blob/Moves.antt =====
-- Where the offset of a blob goes (src/blob.c).
use apsw.Prelude.{
  ℕ, ◌^◌, ◌≡◌, ◌⊎◌, inl, inr, ◌∙◌, true, false, Option, none, some, arith, ◌||◌, if◌then◌else◌,
}
use apsw.Prelude.Int.{ℤ, pos, negsuc, ◌+ℤ◌, ◌≤ℤ◌, ltb_ℤ, wrap32, IsInt32}
use apsw.Errors.{ExcClass}
use apsw.World.{World, err_format}
use apsw.Blob.{BlobApi, Blob, seek_to, seek_open, seek}
use apsw.Blob.Valid.{Within, on_open_lem, wrap32_sum}

-- The place that a seek is relative to.
abbrev pub Base : ℤ → ℤ → ℤ → ℤ → Type 0
Base whence cur size base =
    ((whence ≡ pos 0) × (base ≡ pos 0))
    ⊎ ((whence ≡ pos 1) × (base ≡ cur))
    ⊎ ((whence ≡ pos 2) × (base ≡ size))

-- The result of a seek by the plain integers.
abbrev pub seek_spec : {S : Type 0} → Blob → ℤ → ℤ → World S → Option (Unit {0}) × Blob × World S
seek_spec b target size w =
    if ltb_ℤ target (pos 0) || ltb_ℤ size target
    then (
      none,
      b,
      err_format ExcClass.value_error
          "The resulting offset would be less than zero or past the end of the blob" w,
    )
    else (some tt, record b { curoffset = target }, w)

pub Within-int : (a size : ℤ) → Within a size → IsInt32 size → IsInt32 a
Within-int (pos n) (pos m) h g = omega arith
Within-int (pos n) (negsuc m) h g = absurd (omega arith)
Within-int (negsuc n) size h g = absurd (omega arith)

pub Within-size : (a size : ℤ) → Within a size → Within size size
Within-size a size h = (omega arith, omega arith)

zero_base : (off : ℤ) → pos 0 +ℤ off ≡ off
unfolding ◌+ℤ◌
zero_base (pos n) = ground arith
zero_base (negsuc n) = ground arith

out_low : (a size : ℤ) → ltb_ℤ a (pos 0) ≡ true → (ltb_ℤ a (pos 0) || ltb_ℤ size a) ≡ true
out_low a size h = ground arith

out_high :
    (a size : ℤ) → IsInt32 size → pos (2 ^ 31) ≤ℤ a → (ltb_ℤ a (pos 0) || ltb_ℤ size a) ≡ true
out_high a (pos n) h big = ground arith
out_high a (negsuc n) h big = ground arith

module _ {S : Type 0} (api : BlobApi S) where
  seek_to_wrapped :
      (b : Blob) (base off size : ℤ) (w : World S)
      → IsInt32 size
      → IsInt32 off
      → Within base size
      → seek_to api b (wrap32 (base +ℤ off)) size w ≡ seek_spec b (base +ℤ off) size w
  unfolding seek_to
  seek_to_wrapped b base off size w int_size int_off within =
      elim (wrap32_sum base off (Within-int base size within int_size) int_off within.0) [
        | inl (e, _) ↦ rw e
        | inr (low, big) ↦
            rw (out_low (wrap32 (base +ℤ off)) size low, out_high (base +ℤ off) size int_size big)
      ]

  seek_open_spec :
      (b : Blob) (off whence base : ℤ) (w : World S) (h : ℕ)
      → Within b.curoffset (api.blob_bytes w.db h)
      → IsInt32 (api.blob_bytes w.db h)
      → IsInt32 off
      → Base whence b.curoffset (api.blob_bytes w.db h) base
      → seek_open api b off whence w h ≡ seek_spec b (base +ℤ off) (api.blob_bytes w.db h) w
  unfolding seek_open seek_to
  seek_open_spec b off whence base w h within int_size int_off from = elim from [
    | inl (e, f) ↦ rw (e, f, zero_base off)
    | inr (inl (e, f)) ↦
        rw (e, f)
          (seek_to_wrapped b b.curoffset off (api.blob_bytes w.db h) w int_size int_off within)
    | inr (inr (e, f)) ↦
        rw (e, f)
          (seek_to_wrapped b (api.blob_bytes w.db h) off (api.blob_bytes w.db h) w int_size int_off
            (Within-size b.curoffset (api.blob_bytes w.db h) within))
  ]

  -- `seek` goes exactly where the plain sum of the base and the offset says, if that is in the
  -- blob, and otherwise raises and changes nothing; this holds although the sums are made in C
  -- `int`s, for any `int` offset, each of the three bases, and an offset of the blob that is in it.
  pub seek_exact :
      (b : Blob) (off whence base : ℤ) (w : World S) (h : ℕ)
      → b.p_blob ≡ some h
      → b.inuse ≡ false
      → Within b.curoffset (api.blob_bytes w.db h)
      → IsInt32 (api.blob_bytes w.db h)
      → IsInt32 off
      → Base whence b.curoffset (api.blob_bytes w.db h) base
      → seek api b off whence w ≡ seek_spec b (base +ℤ off) (api.blob_bytes w.db h) w
  unfolding seek
  seek_exact b off whence base w h e f within int_size int_off from =
      on_open_lem api b w (seek_open api b off whence w) h e f
      ∙ seek_open_spec b off whence base w h within int_size int_off from
