-- ===== src/Schema/Projection.antt =====
-- What `fill_required_projections` adds to a projection.
use horaedb.Prelude.{
  ℕ, zero, suc, ◌≡◌, refl, sym, subst, ==_iff, Bool, true, false, ◌||◌, Bool-cases, inl, inr, none,
  some, List, [], ◌∷◌, ◌++◌, append_assoc, append-nil, ltb, ◌==◌, arith,
}
use horaedb.Schema.{StorageSchema, projects, push_missing, push_keys, fill_required_projections}

-- No index stands twice.
abbrev pub IsDistinct : List ℕ → Type 0
IsDistinct [] = Unit
IsDistinct (i ∷ is) = (projects is i ≡ false) × IsDistinct is

projects-append :
    (is js : List ℕ) (i : ℕ) → projects (is ++ js) i ≡ (projects is i || projects js i)
projects-append [] js i = refl
projects-append (j ∷ is) js i = ground (arith, projects-append is js i)

append-IsDistinct :
    (is : List ℕ) (i : ℕ) → IsDistinct is → projects is i ≡ false → IsDistinct (is ++ i ∷ [])
append-IsDistinct [] i h e = (refl, tt)
append-IsDistinct (j ∷ is) i (h, hs) e =
    (ground (arith, projects-append is (i ∷ []) j), append-IsDistinct is i hs (ground arith))

-- `l` is `proj` with more indices behind it, and it has those of `proj` and those that `wanted` tells.
pub record Extends (proj l : List ℕ) (wanted : ℕ → Bool) : Type 0 where
  pub extra : List ℕ
  pub behind : l ≡ proj ++ extra
  pub indices : (i : ℕ) → projects l i ≡ (projects proj i || wanted i)
  pub distinct : IsDistinct proj → IsDistinct l

listed_index :
    (l proj : List ℕ) (wanted : ℕ → Bool) (k i : ℕ)
    → projects l i ≡ (projects proj i || wanted i)
    → projects l k ≡ true
    → (k == i) ≡ true
    → projects l i ≡ (projects proj i || (wanted i || k == i))
listed_index l proj wanted k i h e eq =
    let same : k ≡ i = (==_iff k i).0 eq in
    let there : projects l i ≡ true = subst (λ j. projects l j ≡ true) same e in ground arith

push_missing-Extends :
    (proj l : List ℕ) (wanted : ℕ → Bool) (k : ℕ)
    → Extends proj l wanted
    → Extends proj (push_missing k l) (λ i. wanted i || k == i)
unfolding push_missing
push_missing-Extends proj l wanted k h = elim (Bool-cases (projects l k)) [
  | inl e ↦ rw e (record {
    extra = h.extra;
    behind = h.behind;
    indices = λ i. elim (Bool-cases (k == i)) [
      | inl eq ↦ listed_index l proj wanted k i (h.indices i) e eq
      | inr ne ↦ ground (arith, h.indices i)
    ];
    distinct = h.distinct;
  })
  | inr e ↦ rw e (record {
    extra = h.extra ++ k ∷ [];
    behind = rw (h.behind) (append_assoc proj h.extra (k ∷ []));
    indices = λ i. ground (arith, projects-append l (k ∷ []) i, h.indices i);
    distinct = λ d. append-IsDistinct l k (h.distinct d) e;
  })
]

push_keys-Extends : (proj : List ℕ) (n : ℕ) → Extends proj (push_keys n proj) (λ i. ltb i n)
unfolding push_keys
push_keys-Extends proj zero = record {
  extra = [];
  behind = sym (append-nil proj);
  indices = λ i. ground arith;
  distinct = λ d. d;
}
push_keys-Extends proj (suc n) =
    let step =
      push_missing-Extends proj (push_keys n proj) (λ i. ltb i n) n (push_keys-Extends proj n) in
    record {
      extra = step.extra;
      behind = step.behind;
      indices = λ i. ground (arith, step.indices i);
      distinct = step.distinct;
    }

-- The projection gets the primary keys and the sequence column that it lacks, behind what it has, and
-- nothing else; one without repeated indices has none repeated afterwards. A scan without a projection
-- stays without one.
pub fill_required_projections-Extends :
    {F : Type 0} (self : StorageSchema F) (proj : List ℕ)
    → (fill_required_projections self none ≡ none)
      × (l : List ℕ) × (fill_required_projections self (some proj) ≡ some l)
      × Extends proj l (λ i. ltb i self.num_primary_keys || self.seq_idx == i)
unfolding fill_required_projections
fill_required_projections-Extends self proj = (
  refl,
  push_missing self.seq_idx (push_keys self.num_primary_keys proj),
  refl,
  push_missing-Extends proj (push_keys self.num_primary_keys proj)
      (λ i. ltb i self.num_primary_keys) self.seq_idx
      (push_keys-Extends proj self.num_primary_keys),
)
