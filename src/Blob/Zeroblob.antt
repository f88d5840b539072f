-- ===== src/Blob/Zeroblob.antt =====
-- The class zeroblob (`ZeroBlobBind_*` of src/blob.c).
use apsw.Prelude.{◌≡◌, Bool, true, false, Option, none, some, if◌then◌else◌, Bool-cases, inl, inr}
use apsw.Prelude.Int.{ℤ, pos, ltb_ℤ}
use apsw.Errors.{ExcClass}
use apsw.World.{World, err_format}

pub record ZeroBlobBind : Type 0 where
  pub blobsize : ℤ
  pub init_was_called : Bool

-- `ZeroBlobBind_new`.
unfoldable pub new : ZeroBlobBind
new = record { blobsize = pos 0; init_was_called = false }

module _ {S : Type 0} where
  -- `ZeroBlobBind_init`, none for an error; a call that fails counts as one too.
  unfoldable pub init : ZeroBlobBind → ℤ → World S → Option (Unit {0}) × ZeroBlobBind × World S
  init z size w =
      if z.init_was_called
      then (
        none,
        z,
        err_format ExcClass.runtime_error
            "__init__ has already been called, and cannot be called again" w,
      )
      else let z' = record z { init_was_called = true } in
        if ltb_ℤ size (pos 0)
        then (none, z', err_format ExcClass.type_error "zeroblob size must be >= 0" w)
        else (some tt, record z' { blobsize = size }, w)

  -- The size stays one that SQLite can make, whatever the calls: a length that is not negative.
  ltb_ℤ-init :
      (z : ZeroBlobBind) (size : ℤ) (w : World S)
      → ltb_ℤ z.blobsize (pos 0) ≡ false
      → ltb_ℤ (init z size w).1.blobsize (pos 0) ≡ false
  unfolding init
  ltb_ℤ-init z size w h = elim (Bool-cases z.init_was_called) [
    | inl e ↦ rw e h
    | inr e ↦ rw e (elim (Bool-cases (ltb_ℤ size (pos 0))) [ inl f ↦ rw f h | inr f ↦ rw f f ])
  ]

-- `ZeroBlobBind_len`.
unfoldable pub len : ZeroBlobBind → ℤ
len z = z.blobsize
