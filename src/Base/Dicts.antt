-- ===== src/Base/Dicts.antt =====
-- Python's dict with integer keys: the items in the order in which their keys were added.
use Prim.Native.Nat.{ℕ}
use mathlib.Core.Option.{Option, none, some}
use mathlib.Core.List.{List, [], ◌∷◌}
use huawei_solar_lib.Base.Tests.{◌==◌, if◌then◌else◌}

abbrev pub Dict : Type 0 → Type 0
Dict A = List (ℕ × A)

module _ {A : Type 0} where
  -- `d.get(key)`
  abbrev pub get : ℕ → Dict A → Option A
  get key [] = none
  get key ((k, a) ∷ d) = let rest = get key d in if k == key then some a else rest

  -- `d[key] = value`
  abbrev pub set_item : ℕ → A → Dict A → Dict A
  set_item key value [] = (key, value) ∷ []
  set_item key value ((k, a) ∷ d) =
      let rest = set_item key value d in if k == key then (k, value) ∷ d else (k, a) ∷ rest

  -- `d.pop(key)`, with what it leaves
  abbrev pub pop : ℕ → Dict A → Dict A
  pop key [] = []
  pop key ((k, a) ∷ d) = let rest = pop key d in if k == key then d else (k, a) ∷ rest

  -- `d.update(items)`
  abbrev pub update : Dict A → Dict A → Dict A
  update d [] = d
  update d ((k, a) ∷ items) = update (set_item k a d) items
