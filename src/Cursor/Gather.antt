-- ===== src/Cursor/Gather.antt =====
-- What `get` makes of the rows (src/cursor.c).
use apsw.Prelude.{
  append_assoc, ℕ, zero, suc, ◌≡◌, refl, ap, ◌∙◌, Option, none, some, List, [], ◌∷◌, ◌++◌,
  if◌then◌else◌, not, Bool-cases, inl, inr,
}
use apsw.World.{World}
use apsw.StatementCache.{Statement, StatementCache}
use apsw.Cursor.{Cursor, is_done}
use apsw.Cursor.Step.{Outcome, returned, cache_fault, null_fault, assert_fault, no_fuel, step}
use apsw.Cursor.Execute.{RowApi, on_open}
use apsw.Cursor.Get.{
  Item, Got, got_none, one, many, is_row, Gathered, nothing, the_row, the_list, add_row, finish,
  get_row, after_get, with_row, get_loop, get,
}

-- The value of `get` for the rows: none at all, one, several.
pub shape : List Item → Got
shape [] = got_none
shape (r ∷ []) = one r
shape (r ∷ s ∷ rs) = many (r ∷ s ∷ rs)

pub map_outcome : {S A B : Type 0} → (A → B) → Outcome S A → Outcome S B
map_outcome f (returned none c sc w) = returned none c sc w
map_outcome f (returned (some v) c sc w) = returned (some (f v)) c sc w
map_outcome f cache_fault = cache_fault
map_outcome f null_fault = null_fault
map_outcome f assert_fault = assert_fault
map_outcome f no_fuel = no_fuel

close_up : Gathered → List Item → Got
close_up nothing rs = shape rs
close_up (the_row r) rs = shape (r ∷ rs)
close_up (the_list l) rs = many (l ++ rs)

close_up-add_row :
    (g : Gathered) (r : Item) (rs : List Item) → close_up (add_row g r) rs ≡ close_up g (r ∷ rs)
unfolding close_up shape
close_up-add_row nothing r rs = refl
close_up-add_row (the_row first) r rs = refl
close_up-add_row (the_list l) r rs = ap many (append_assoc l (r ∷ []) rs)

finish-add_row : (g : Gathered) (r : Item) → finish (add_row g r) ≡ some (close_up g (r ∷ []))
unfolding close_up shape
finish-add_row nothing r = refl
finish-add_row (the_row first) r = refl
finish-add_row (the_list l) r = refl

module _ {S : Type 0} (api : RowApi S) where
  pub then_rows :
      (Cursor → StatementCache → World S → Outcome S (List Item))
      → Outcome S (Unit {0})
      → Outcome S (List Item)
  then_rows rows (returned none c sc w) = returned none c sc w
  then_rows rows (returned (some v) c sc w) =
      if is_done c.status then returned (some []) c sc w else rows c sc w
  then_rows rows cache_fault = cache_fault
  then_rows rows null_fault = null_fault
  then_rows rows assert_fault = assert_fault
  then_rows rows no_fuel = no_fuel

  -- The rows from here on, in their order: this row, and those that a step leads to.
  pub rows : ℕ → ℕ → Cursor → StatementCache → World S → Outcome S (List Item)
  rows zero fuel c sc w = no_fuel
  rows (suc n) fuel c sc w =
      if not (is_row c.status)
      then assert_fault
      else with_row api
          (λ r. map_outcome (λ rs. r ∷ rs) (then_rows (rows n fuel) (step api.exec fuel c sc w)))
          c.statement c sc w

  after_get-then_rows :
      (g : Gathered) (r : Item) (loop : Cursor → StatementCache → World S → Outcome S Got)
      (more : Cursor → StatementCache → World S → Outcome S (List Item))
      (out : Outcome S (Unit {0}))
      → ((c : Cursor) (sc : StatementCache) (w : World S)
          → loop c sc w ≡ map_outcome (close_up (add_row g r)) (more c sc w))
      → after_get api (add_row g r) loop out
        ≡ map_outcome (close_up g) (map_outcome (λ rs. r ∷ rs) (then_rows more out))
  unfolding after_get then_rows map_outcome
  after_get-then_rows g r loop more (returned none c sc w) h = refl
  after_get-then_rows g r loop more (returned (some v) c sc w) h =
      elim (Bool-cases (is_done c.status)) [
        | inl e ↦ rw e (ap (λ x. returned x c sc w) (finish-add_row g r))
        | inr e ↦ rw e (h c sc w ∙ moved (more c sc w))
      ]
    where
      moved :
          (o : Outcome S (List Item))
          → map_outcome (close_up (add_row g r)) o
            ≡ map_outcome (close_up g) (map_outcome (λ rs. r ∷ rs) o)
      moved (returned none c' sc' w') = refl
      moved (returned (some rs) c' sc' w') =
          ap (λ x. returned (some x) c' sc' w') (close_up-add_row g r rs)
      moved cache_fault = refl
      moved null_fault = refl
      moved assert_fault = refl
      moved no_fuel = refl
  after_get-then_rows g r loop more cache_fault h = refl
  after_get-then_rows g r loop more null_fault h = refl
  after_get-then_rows g r loop more assert_fault h = refl
  after_get-then_rows g r loop more no_fuel h = refl

  with_row-map_outcome :
      {A B : Type 0} (f : A → B) (s : Option Statement) (c : Cursor) (sc : StatementCache)
      (w : World S) (rest : Item → Outcome S A) (rest' : Item → Outcome S B)
      → ((r : Item) → rest' r ≡ map_outcome f (rest r))
      → with_row api rest' s c sc w ≡ map_outcome f (with_row api rest s c sc w)
  unfolding with_row map_outcome
  with_row-map_outcome f none c sc w rest rest' h = refl
  with_row-map_outcome {A = A} {B = B} f (some s) c sc w rest rest' h =
      go (get_row api s.vdbestatement w.db)
    where
      go :
          (item : Option Item)
          → elim item as (λ _. Outcome S B) [
            | none ↦ returned none c sc (record w { exc = some api.decode_error })
            | some r ↦ rest' r
          ]
            ≡ map_outcome f (elim item as (λ _. Outcome S A) [
              | none ↦ returned none c sc (record w { exc = some api.decode_error })
              | some r ↦ rest r
            ])
      go none = refl
      go (some r) = h r

  get_loop-rows :
      (n fuel : ℕ) (g : Gathered) (c : Cursor) (sc : StatementCache) (w : World S)
      → get_loop api n fuel g c sc w ≡ map_outcome (close_up g) (rows n fuel c sc w)
  unfolding get_loop rows map_outcome
  get_loop-rows zero fuel g c sc w = refl
  get_loop-rows (suc n) fuel g c sc w = elim (Bool-cases (not (is_row c.status))) [
    | inl e ↦ rw e refl
    | inr e ↦ rw e (
        with_row-map_outcome (close_up g) c.statement c sc w _ _
          (λ r. after_get-then_rows g r _ _ _ (get_loop-rows n fuel (add_row g r))))
  ]

  -- The value of `get` where the rows are those of `rows`.
  pub get_rows : ℕ → ℕ → Cursor → StatementCache → World S → Outcome S Got
  get_rows n fuel c sc w = on_open api (returned none c sc) c.connection c w (
      map_outcome shape
        (if is_done c.status then returned (some []) c sc w else rows n fuel c sc w))

  -- `get` gives None where nothing is left, the one row that is left, or the list of the rows, in
  -- their order; an error, and every other end, is that of the rows.
  pub get-shape :
      (n fuel : ℕ) (c : Cursor) (sc : StatementCache) (w : World S)
      → get api n fuel c sc w ≡ get_rows n fuel c sc w
  unfolding get get_rows shape map_outcome close_up
  get-shape n fuel c sc w = elim (Bool-cases (is_done c.status)) [
    | inl e ↦ rw e refl
    | inr e ↦ rw e (
        ap (on_open api (returned none c sc) c.connection c w)
          (get_loop-rows n fuel nothing c sc w))
  ]
