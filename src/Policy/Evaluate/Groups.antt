-- ===== src/Policy/Evaluate/Groups.antt =====
-- The map of groups that the first loop of `Evaluate` in pkg/policy/policy.go builds.
use regbot.Base.{
  Bool, true, ℕ, zero, suc, ◌+◌, ◌≤◌, ◌<◌, List, [], ◌∷◌, ◌++◌, Str, str_eq, str_mem, ◌==◌, count,
  if◌then◌else◌, get_elem?, Option, none, some, ◌≡◌, refl, sym, ap, arith, Bool-cases, inl, inr,
  append-nil, append_assoc, str_eq→eq, eq→str_eq, count-append, str_eq_iff, str_eq_comm, occurs,
  occurs-zero, str_mem-append, ◌⊎◌,
}
use regbot.Policy.Types.{Decision}
use regbot.Policy.Evaluate.{Groups, append_index, collect, indices_of, keys}

-- The positions of a group's members, counted from `k`.
abbrev pub positions : Str → ℕ → List Decision → List ℕ
positions key k [] = []
positions key k (d ∷ ds) =
    if str_eq d.group key then k ∷ positions key (suc k) ds else positions key (suc k) ds

abbrev only_if : Bool → ℕ → List ℕ
only_if b i = if b then i ∷ [] else []

indices_of-append_index :
    (key k : Str) (i : ℕ) (groups : Groups)
    → indices_of key (append_index k i groups) ≡ indices_of key groups ++ only_if (str_eq k key) i
indices_of-append_index key k i [] = refl
indices_of-append_index key k i ((j, is) ∷ groups) = elim (Bool-cases (str_eq j k)) [
  | inl e ↦
      rw e (ground (arith, str_eq→eq j k e, append-nil is, append-nil (indices_of key groups)))
  | inr e ↦ rw e (
      ground (
        arith,
        str_eq_iff j key,
        str_eq_iff k key,
        eq→str_eq j k,
        append-nil is,
        indices_of-append_index key k i groups,
      ))
]

-- Behind the loop, a group holds the positions of its members.
indices_of-collect_from :
    (key : Str) (k : ℕ) (ds : List Decision) (groups : Groups)
    → indices_of key (collect k ds groups) ≡ indices_of key groups ++ positions key k ds
indices_of-collect_from key k [] groups = sym (append-nil _)
indices_of-collect_from key k (d ∷ ds) groups =
    rw
      (
        indices_of-collect_from key (suc k) ds (append_index d.group k groups),
        indices_of-append_index key d.group k groups,
        append_assoc,
      )
      (elim (Bool-cases (str_eq d.group key)) [ inl e ↦ rw e | inr e ↦ rw e ])

pub indices_of-collect :
    (key : Str) (ds : List Decision) → indices_of key (collect 0 ds []) ≡ positions key 0 ds
indices_of-collect key ds = indices_of-collect_from key 0 ds []

keys-append_index :
    (key : Str) (i : ℕ) (groups : Groups)
    → keys (append_index key i groups)
      ≡ (if str_mem key (keys groups) then keys groups else keys groups ++ key ∷ [])
keys-append_index key i [] = refl
keys-append_index key i ((j, is) ∷ groups) = elim (Bool-cases (str_eq j key)) [
  | inl e ↦ rw (e, str_eq_comm key j, e)
  | inr e ↦
      rw (e, str_eq_comm key j, e)
        (elim (Bool-cases (str_mem key (keys groups))) [
          | inl m ↦ rw (keys-append_index key i groups, m)
          | inr m ↦ rw (keys-append_index key i groups, m)
        ])
]

abbrev AreDistinct : List Str → Type 0
AreDistinct ks = (k : Str) → occurs k ks ≤ 1

append_index-AreDistinct :
    (key : Str) (i : ℕ) (groups : Groups)
    → AreDistinct (keys groups)
    → AreDistinct (keys (append_index key i groups))
append_index-AreDistinct key i groups h k =
    rw keys-append_index (elim (Bool-cases (str_mem key (keys groups))) [
      | inl m ↦ rw m (h k)
      | inr m ↦ rw m (
          rw count-append (
            ground (
              arith,
              h k,
              str_eq→eq k key,
              occurs-zero key (keys groups) m,
              occurs-zero k (keys groups),
            )))
    ])

-- The keys of the map are distinct.
pub collect-AreDistinct :
    (i : ℕ) (ds : List Decision) (groups : Groups)
    → AreDistinct (keys groups)
    → AreDistinct (keys (collect i ds groups))
collect-AreDistinct i [] groups h = h
collect-AreDistinct i (d ∷ ds) groups h =
    collect-AreDistinct (suc i) ds (append_index d.group i groups)
      (append_index-AreDistinct d.group i groups h)

str_mem-append_index :
    (k key : Str) (i : ℕ) (groups : Groups)
    → (str_mem k (keys groups) ≡ true) ⊎ (k ≡ key)
    → str_mem k (keys (append_index key i groups)) ≡ true
str_mem-append_index k key i groups h =
    rw keys-append_index (elim (Bool-cases (str_mem key (keys groups))) [
      | inl m ↦ rw m (ground (arith, ap (λ t. str_mem t (keys groups))))
      | inr m ↦ rw (m, str_mem-append) (ground (arith, eq→str_eq k key))
    ])

str_mem-collect :
    (k : Str) (i : ℕ) (ds : List Decision) (groups : Groups)
    → str_mem k (keys groups) ≡ true
    → str_mem k (keys (collect i ds groups)) ≡ true
str_mem-collect k i [] groups h = h
str_mem-collect k i (d ∷ ds) groups h =
    str_mem-collect k (suc i) ds (append_index d.group i groups)
      (str_mem-append_index k d.group i groups (inl h))

-- The group of every decision is a key.
pub collect-covers :
    (k : ℕ) (ds : List Decision) (groups : Groups) (i : ℕ) (d : Decision)
    → get_elem? ds i ≡ some d
    → str_mem d.group (keys (collect k ds groups)) ≡ true
collect-covers k [] groups i d h = cc
collect-covers k (e ∷ ds) groups zero d h =
    str_mem-collect d.group (suc k) ds (append_index e.group k groups)
      (str_mem-append_index d.group e.group k groups (inr (ground arith)))
collect-covers k (e ∷ ds) groups (suc i) d h =
    collect-covers (suc k) ds (append_index e.group k groups) i d h

-- How often a position stands among those of a group.
abbrev pub here_or : Str → Option Decision → ℕ
here_or key none = 0
here_or key (some d) = if str_eq d.group key then 1 else 0

positions-below :
    (key : Str) (k m : ℕ) (ds : List Decision)
    → m < k
    → count (λ j. j == m) (positions key k ds) ≡ 0
positions-below key k m [] h = refl
positions-below key k m (d ∷ ds) h = ground (arith, positions-below key (suc k) m ds)

pub count-positions :
    (key : Str) (k : ℕ) (ds : List Decision) (i : ℕ)
    → count (λ j. j == (k + i)) (positions key k ds) ≡ here_or key (get_elem? ds i)
count-positions key k [] i = refl
count-positions key k (d ∷ ds) zero = ground (arith, positions-below key (suc k) (k + 0) ds)
count-positions key k (d ∷ ds) (suc i) = ground (arith, count-positions key (suc k) ds i)
