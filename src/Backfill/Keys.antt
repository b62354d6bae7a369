-- ===== src/Backfill/Keys.antt =====
-- The keys of the runs to repeat: the tuples (date, dataset, version, phase, family), Python's order of
-- them, the set of them and its `sorted`. A date is its ordinal.
pub mod Sorting
use robot_data_harness.Common.{
  ℕ, Bool, true, false, ◌&&◌, Option, none, some, List, [], ◌∷◌, ◌++◌, Text, text_beq, eqb, ltb,
  any, if◌then◌else◌, text_lt, ◌>>=◌,
}

pub record Key : Type 0 where
  pub dt : ℕ
  pub dataset_id : Text
  pub version : Text
  pub phase : Text
  pub family : Option Text

abbrev pub family_beq : Option Text → Option Text → Bool
family_beq none none = true
family_beq none (some t) = false
family_beq (some s) none = false
family_beq (some s) (some t) = text_beq s t

-- The comparison of None with a text raises TypeError: `none`.
pub family_lt : Option Text → Option Text → Option Bool
family_lt none none = some false
family_lt none (some t) = none
family_lt (some s) none = none
family_lt (some s) (some t) = some (text_lt s t)

-- The keys agree on all but the family.
unfoldable pub same_run : Key → Key → Bool
same_run k j =
    eqb k.dt j.dt
    && (text_beq k.dataset_id j.dataset_id
        && (text_beq k.version j.version && text_beq k.phase j.phase))

unfoldable pub key_beq : Key → Key → Bool
unfolding same_run
key_beq k j = same_run k j && family_beq k.family j.family

-- `<` on tuples: the first difference decides.
pub key_lt : Key → Key → Option Bool
unfolding family_lt
key_lt k j =
    if eqb k.dt j.dt
    then if text_beq k.dataset_id j.dataset_id
      then if text_beq k.version j.version
        then if text_beq k.phase j.phase
          then family_lt k.family j.family
          else some (text_lt k.phase j.phase)
        else some (text_lt k.version j.version)
      else some (text_lt k.dataset_id j.dataset_id)
    else some (ltb k.dt j.dt)

-- keys.add(key)
unfoldable pub add_key : Key → List Key → List Key
unfolding key_beq
add_key k keys = if any (key_beq k) keys then keys else keys ++ k ∷ []

pub insert_key : Key → List Key → Option (List Key)
unfolding key_lt
insert_key k [] = some (k ∷ [])
insert_key k (j ∷ keys) = do
  before ← key_lt k j
  let rest = insert_key k keys
  if before then some (k ∷ j ∷ keys) else (do placed ← rest; some (j ∷ placed))

-- sorted(keys). Every sort must compare the keys that are next to each other in its result, so that it
-- raises when two keys differ in the family alone and one of the families is None.
unfoldable pub sorted_keys : List Key → Option (List Key)
unfolding insert_key
sorted_keys [] = some []
sorted_keys (k ∷ keys) = do rest ← sorted_keys keys; insert_key k rest
