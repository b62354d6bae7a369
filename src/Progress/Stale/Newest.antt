-- ===== src/Progress/Stale/Newest.antt =====
-- The moment that the check keeps for a step is the newest of its records.
use robot_data_harness.Common.{
  ℕ, max, ◌≤◌, count_if, Eq, ◌≡◌, refl, sym, ap, ◌∙◌, inl, inr, Bool, true, Option, none, some,
  List, [], ◌∷◌, ltb, if◌then◌else◌, Text, Dict, get, put, get-put, All, Bool-cases, Option-cases,
  arith,
}
use robot_data_harness.Progress.Stale.{
  Heartbeat, Moment, Key, key_eq, key_of, later, with_record, latest_records, parse_iso,
}

abbrev pub instant_of : Option Moment → Option ℕ
instant_of none = none
instant_of (some m) = some m.instant

-- The moment has a zone, when there is one.
abbrev pub is_aware : Option Moment → Bool
is_aware none = true
is_aware (some m) = m.aware

abbrev pub newer : Option ℕ → Option ℕ → Option ℕ
newer none b = b
newer (some a) none = some a
newer (some a) (some b) = some (max a b)

newer_assoc : (a b c : Option ℕ) → newer (newer a b) c ≡ newer a (newer b c)
newer_assoc none b c = refl
newer_assoc (some a) none c = refl
newer_assoc (some a) (some b) none = refl
newer_assoc (some a) (some b) (some c) = ap some (omega arith)

newer-none : (a : Option ℕ) → newer a none ≡ a
newer-none none = refl
newer-none (some a) = refl

-- What a record says of a key.
abbrev pub said : Key → Key → Option Moment → Option ℕ
said k key o = if key_eq.beq key k then instant_of o else none

module _ {ℓ κ} {K : Type ℓ} {V : Type κ} ⦃e : Eq K⦄ where
  -- The number of entries of a key, which `put` raises at most to 1.
  count_if-put :
      (k j : K) (v : V) (d : Dict K V)
      → count_if (λ item. e.beq item.0 j) (put k v d) ≡ (
          if e.beq k j
          then max 1 (count_if (λ item. e.beq item.0 j) d)
          else count_if (λ item. e.beq item.0 j) d)
  unfolding put
  count_if-put k j v [] = ground arith
  count_if-put k j v ((i, w) ∷ d) =
      ground (arith, count_if-put k j v d, e.beq_iff i k, e.beq_iff i j, e.beq_iff k j)

-- The entries of a key in the list that stands for the dict.
abbrev pub entries : Key → Dict Key Moment → ℕ
entries k = count_if (λ item. key_eq.beq item.0 k)

-- No key has two entries.
abbrev pub HasDistinctKeys : Dict Key Moment → Type 0
HasDistinctKeys latest = (k : Key) → entries k latest ≤ 1

entries-put :
    (key : Key) (ts : Moment) (latest : Dict Key Moment) (k : Key)
    → entries k (put key ts latest) ≤ max 1 (entries k latest)
entries-put key ts latest k =
    rw (count_if-put key k ts latest) (elim (Bool-cases (key_eq.beq key k)) [
      | inl q ↦ rw q (omega arith)
      | inr q ↦ rw q (omega arith)
    ])

-- What the step of the loop leaves, when no time lacks a zone.
abbrev Kept : Dict Key Moment → Key → Option Moment → Dict Key Moment → Type 0
Kept latest key o latest' =
    ((k : Key) → is_aware (get k latest') ≡ true)
    × ((k : Key) → instant_of (get k latest') ≡ newer (instant_of (get k latest)) (said k key o))
    × ((k : Key) → entries k latest' ≤ max 1 (entries k latest))

said-none :
    (latest : Dict Key Moment) (key k : Key)
    → instant_of (get k latest) ≡ newer (instant_of (get k latest)) (said k key none)
said-none latest key k = elim (Bool-cases (key_eq.beq key k)) [
  | inl q ↦ rw q (sym (newer-none (instant_of (get k latest))))
  | inr q ↦ rw q (sym (newer-none (instant_of (get k latest))))
]

Kept-same :
    (latest : Dict Key Moment) (key : Key)
    → ((k : Key) → is_aware (get k latest) ≡ true)
    → Kept latest key none latest
Kept-same latest key h = (h, said-none latest key, λ k. omega arith)

is_aware-put :
    (latest : Dict Key Moment) (key : Key) (ts : Moment)
    → ts.aware ≡ true
    → ((k : Key) → is_aware (get k latest) ≡ true)
    → (k : Key) → is_aware (get k (put key ts latest)) ≡ true
is_aware-put latest key ts a h k =
    rw (get-put key k ts latest)
      (elim (Bool-cases (key_eq.beq key k)) [ inl q ↦ rw q a | inr q ↦ rw q (h k) ])

said-put :
    (latest : Dict Key Moment) (key : Key) (ts : Moment)
    → newer (instant_of (get key latest)) (some ts.instant) ≡ some ts.instant
    → (k : Key)
    → instant_of (get k (put key ts latest))
      ≡ newer (instant_of (get k latest)) (said k key (some ts))
said-put latest key ts e k = rw (get-put key k ts latest) (elim (Bool-cases (key_eq.beq key k)) [
  | inl q ↦
      let same = ap (λ k. instant_of (get k latest)) ((key_eq.beq_iff key k).0 q) in
      rw q (rw same at (sym e))
  | inr q ↦ rw q (sym (newer-none (instant_of (get k latest))))
])

said-old :
    (latest : Dict Key Moment) (key : Key) (ts : Moment)
    → newer (instant_of (get key latest)) (some ts.instant) ≡ instant_of (get key latest)
    → (k : Key)
    → instant_of (get k latest) ≡ newer (instant_of (get k latest)) (said k key (some ts))
said-old latest key ts e k = elim (Bool-cases (key_eq.beq key k)) [
  | inl q ↦
      let same = ap (λ k. instant_of (get k latest)) ((key_eq.beq_iff key k).0 q) in
      rw q (rw same at (sym e))
  | inr q ↦ rw q (sym (newer-none (instant_of (get k latest))))
]

with_record-Kept :
    (latest : Dict Key Moment) (key : Key) (o : Option Moment)
    → is_aware o ≡ true
    → ((k : Key) → is_aware (get k latest) ≡ true)
    → (latest' : Dict Key Moment) × (with_record latest key o ≡ some latest')
      × Kept latest key o latest'
unfolding later put
with_record-Kept latest key none a h = (latest, refl, Kept-same latest key h)
with_record-Kept latest key (some ts) a h = elim (Option-cases (get key latest)) [
  | inl e ↦ (
    put key ts latest,
    rw e refl,
    (is_aware-put latest key ts a h, said-put latest key ts (rw e refl), entries-put key ts latest),
  )
  | inr (old, e) ↦
      let old_aware : old.aware ≡ true = rw e at (h key) in
      elim (Bool-cases (ltb old.instant ts.instant)) [
        | inl l ↦ (
          put key ts latest,
          rw (e, later, a, old_aware, l) refl,
          (
            is_aware-put latest key ts a h,
            said-put latest key ts (rw e (ap some (ground (arith, l)))),
            entries-put key ts latest,
          ),
        )
        | inr l ↦ (
          latest,
          rw (e, later, a, old_aware, l) refl,
          (h, said-old latest key ts (rw e (ap some (ground (arith, l)))), λ k. omega arith),
        )
      ]
]

module _ (fromisoformat : Text → Option Moment) where
  -- The newest instant that the records give for a key.
  unfoldable pub newest : Key → List Heartbeat → Option ℕ
  newest k [] = none
  newest k (rec ∷ records) =
      newer (said k (key_of rec) (parse_iso fromisoformat rec.updated_at)) (newest k records)

  abbrev pub HasZones : List Heartbeat → Type 0
  HasZones records = All (λ rec. is_aware (parse_iso fromisoformat rec.updated_at) ≡ true) records

  latest_records-from :
      (records : List Heartbeat) (latest : Dict Key Moment)
      → HasZones records
      → ((k : Key) → is_aware (get k latest) ≡ true)
      → (latest' : Dict Key Moment) × (latest_records fromisoformat records latest ≡ some latest')
        × ((k : Key)
            → instant_of (get k latest') ≡ newer (instant_of (get k latest)) (newest k records))
        × ((k : Key) → entries k latest' ≤ max 1 (entries k latest))
  unfolding latest_records newest
  latest_records-from [] latest a h =
      (latest, refl, λ k. sym (newer-none (instant_of (get k latest))), λ k. omega arith)
  latest_records-from (rec ∷ records) latest a h =
      let ts = parse_iso fromisoformat rec.updated_at in
      let (mid, e, kept) = with_record-Kept latest (key_of rec) ts a.0 h in
      let (last, e', all, few) = latest_records-from records mid a.1 kept.0 in
      (
        last,
        rw e e',
        λ k.
            all k
            ∙ (ap (λ o. newer o (newest k records)) (kept.1 k)
                ∙ newer_assoc (instant_of (get k latest)) (said k (key_of rec) ts)
                    (newest k records)),
        λ k. omega (arith, few k, kept.2 k),
      )

  -- When no record has a time without a zone, the loop ends without an exception, and keeps for a key
  -- the newest instant of the records of that key, and nothing when there is none. No key is kept twice.
  pub latest_records-newest :
      (records : List Heartbeat) (k : Key)
      → HasZones records
      → (latest : Dict Key Moment) × (latest_records fromisoformat records [] ≡ some latest)
        × HasDistinctKeys latest
        × (instant_of (get k latest) ≡ newest k records)
  unfolding get
  latest_records-newest records k a =
      let (latest, e, all, few) = latest_records-from records [] a (λ k. refl) in
      (latest, e, λ j. omega (arith, few j), all k)
