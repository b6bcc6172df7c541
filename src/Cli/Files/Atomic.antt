-- ===== src/Cli/Files/Atomic.antt =====
-- What `writeJSONAtomic` of internal/cli/root.go does to the files, at each moment.
use regbot.Base.{
  Bool, true, false, suc, ◌≤◌, List, ◌∷◌, Str, Option, none, some, Result, ok, err, str_eq,
  str_eq_refl, str_eq_comm, str_eq→eq, if◌then◌else◌, ◌≡◌, refl, arith, ap, sym, ◌∙◌, subst, ◌⊎◌,
  inl, inr, Bool-cases, length,
}
use regbot.Cli.Files.{
  FileEvent, created, restricted, synced, closed, removed, wrote, renamed, content, FileSystem,
  replace_file,
}
use regbot.Cli.Files.Writing.{
  touches, is_none, Writing, start, touch, commit, clean, replace_file-Ends,
}

-- The moment `m` is the first of `h` or before it.
pub data Earlier (m : List FileEvent) : List FileEvent → Type 0 where
  now : {h : List FileEvent} → m ≡ h → Earlier m h
  before : {h : List FileEvent} (e : FileEvent) → Earlier m h → Earlier m (e ∷ h)

Earlier-length : (a b : List FileEvent) → Earlier a b → (a ≡ b) ⊎ (suc (length a) ≤ length b)
Earlier-length a _ (now e) = inl e
Earlier-length a _ (before {h = b} e past) = inr (longer (Earlier-length a b past))
  where
    longer : (a ≡ b) ⊎ (suc (length a) ≤ length b) → suc (length a) ≤ suc (length b)
    longer (inl p) = ground (arith, ap length p)
    longer (inr l) = omega (arith, l)

only : (k h : List FileEvent) → Earlier h k → Earlier k h → k ≡ h
only k h from till = elim (Earlier-length k h till) [
  | inl e ↦ e
  | inr l ↦ elim (Earlier-length h k from) [
    | inl e ↦ sym e
    | inr l' ↦ absurd (omega (arith, l, l'))
  ]
]

Earlier-cases :
    (k m : List FileEvent) (e : FileEvent) → Earlier k (e ∷ m) → (k ≡ e ∷ m) ⊎ Earlier k m
Earlier-cases k m e (now p) = inl p
Earlier-cases k m e (before x past) = inr past

module _ (files : Str → Option Str) (path bytes temp : Str) (h : List FileEvent) where
  untouched :
      (m : List FileEvent) (q : Str) (e : FileEvent)
      → touches temp e ≡ true
      → str_eq q temp ≡ false
      → content files (e ∷ m) q ≡ content files m q
  unfolding touches
  untouched m q (created n) own other = rw (str_eq→eq n temp own, other) refl
  untouched m q (restricted n) own other = refl
  untouched m q (synced n) own other = refl
  untouched m q (closed n) own other = refl
  untouched m q (removed n) own other = cc
  untouched m q (wrote n b) own other = rw (str_eq→eq n temp own, other) refl
  untouched m q (renamed from to) own other = cc

  -- Another file is not touched.
  elsewhere :
      (q : Str) (m : List FileEvent) {b : Bool}
      → str_eq q path ≡ false
      → str_eq q temp ≡ false
      → Writing files path bytes temp h m b
      → content files m q ≡ content files h q
  elsewhere q _ aside other start = refl
  elsewhere q _ aside other (touch {m = m} e own w) =
      untouched m q e own other ∙ elsewhere q m aside other w
  elsewhere q _ aside other (commit {m = m} held w) =
      rw (aside, other) (elsewhere q m aside other w)
  elsewhere q _ aside other (clean {m = m} w) = rw other (elsewhere q m aside other w)

  abbrev IsOldOrNew : List FileEvent → Type 0
  IsOldOrNew k = (content files k path ≡ content files h path) ⊎ (content files k path ≡ some bytes)

  module _ (apart : str_eq path temp ≡ false) where
    at_end :
        (m : List FileEvent) {b : Bool}
        → Writing files path bytes temp h m b
        → content files m path ≡ (if b then some bytes else content files h path)
    at_end _ start = refl
    at_end _ (touch {m = m} e own w) = untouched m path e own apart ∙ at_end m w
    at_end _ (commit held w) = rw (str_eq_refl path) held
    at_end _ (clean {m = m} w) = rw apart (at_end m w)

    leaves_none :
        (m : List FileEvent) → Writing files path bytes temp h m true → content files m temp ≡ none
    leaves_none _ (commit held w) = rw (str_eq_comm temp path, apart, str_eq_refl temp) refl
    leaves_none _ (clean w) = rw (str_eq_refl temp) refl

    one_of :
        (m : List FileEvent) (b : Bool)
        → content files m path ≡ (if b then some bytes else content files h path)
        → IsOldOrNew m
    one_of m true e = inr e
    one_of m false e = inl e

    moments :
        (k m : List FileEvent) {b : Bool}
        → Earlier h k
        → Earlier k m
        → Writing files path bytes temp h m b
        → IsOldOrNew k
    moments k _ from till start = subst IsOldOrNew (sym (only k h from till)) (inl refl)
    moments k _ from till (touch {m = m} e own w) = elim (Earlier-cases k m e till) [
      | inl p ↦ subst IsOldOrNew (sym p) (one_of (e ∷ m) false (at_end (e ∷ m) (touch e own w)))
      | inr past ↦ moments k m from past w
    ]
    moments k _ from till (commit {m = m} held w) =
        elim (Earlier-cases k m (renamed temp path) till) [
          | inl p ↦
              subst IsOldOrNew (sym p) (
                one_of (renamed temp path ∷ m) true
                  (at_end (renamed temp path ∷ m) (commit held w)))
          | inr past ↦ moments k m from past w
        ]
    moments k _ {b} from till (clean {m = m} w) = elim (Earlier-cases k m (removed temp) till) [
      | inl p ↦
          subst IsOldOrNew (sym p)
            (one_of (removed temp ∷ m) b (at_end (removed temp ∷ m) (clean w)))
      | inr past ↦ moments k m from past w
    ]

-- The file is replaced as a whole or not at all, and no other that there was is touched.
pub record IsReplaced (files : Str → Option Str) (path bytes : Str) (h : List FileEvent)
    (answer : Option Str) (m : List FileEvent) : Type 0 where
  pub at_each_moment :
      (k : List FileEvent)
      → Earlier h k
      → Earlier k m
      → (content files k path ≡ content files h path) ⊎ (content files k path ≡ some bytes)
  pub behind : content files m path ≡ (if is_none answer then some bytes else content files h path)
  pub others :
      (q : Str)
      → str_eq q path ≡ false
      → (content files m q ≡ content files h q)
        ⊎ ((is_none answer ≡ false) × (content files h q ≡ none))

-- The name of a new file is that of no file, and not that of the file to be written.
pub record IsFresh (files : Str → Option Str) (h : List FileEvent) (path temp : Str) : Type 0 where
  pub free : content files h temp ≡ none
  pub apart : str_eq path temp ≡ false

abbrev pub CreatesFresh : (Str → Option Str) → FileSystem → Type 0
CreatesFresh files fs =
    (h : List FileEvent) (path temp : Str) → fs.create h path ≡ ok temp → IsFresh files h path temp

module _ (files : Str → Option Str) (path bytes temp : Str) (h : List FileEvent) where
  beside :
      IsFresh files h path temp
      → (answer : Option Str) (m : List FileEvent) (q : Str) → str_eq q path ≡ false
      → Writing files path bytes temp h m (is_none answer)
      → (content files m q ≡ content files h q)
        ⊎ ((is_none answer ≡ false) × (content files h q ≡ none))
  beside new answer m q aside w = elim (Bool-cases (str_eq q temp)) [
    | inr other ↦ inl (elsewhere files path bytes temp h q m aside other w)
    | inl same ↦ at_temp answer (str_eq→eq q temp same) w
  ]
    where
      at_temp :
          (a : Option Str)
          → q ≡ temp
          → Writing files path bytes temp h m (is_none a)
          → (content files m q ≡ content files h q)
            ⊎ ((is_none a ≡ false) × (content files h q ≡ none))
      at_temp none p w' = inl (
          ap (content files m) p
          ∙ (leaves_none files path bytes temp h new.apart m w'
              ∙ sym (ap (content files h) p ∙ new.free)))
      at_temp (some x) p w' = inr (refl, ap (content files h) p ∙ new.free)

module _ (files : Str → Option Str) (fs : FileSystem) (fresh : CreatesFresh files fs) where
  -- `writeJSONAtomic`, behind the encoding, replaces the file as a whole or leaves it as it was: at
  -- each moment of a run the path holds what it held before, or all the bytes; at the end it holds the
  -- bytes exactly if there is no error; and no other file that there was is changed.
  pub replace_file-IsReplaced :
      (path bytes : Str) (h : List FileEvent)
      → IsReplaced files path bytes h
          (replace_file fs path bytes h).0
          (replace_file fs path bytes h).1
  unfolding replace_file
  replace_file-IsReplaced path bytes h = by_answer (fs.create h path) refl
    where
      by_answer :
          (r : Result Str Str)
          → fs.create h path ≡ r
          → IsReplaced files path bytes h
              (replace_file fs path bytes h).0
              (replace_file fs path bytes h).1
      by_answer (err x) e = rw e (record {
        at_each_moment = λ k from till. inl (ap (λ l. content files l path) (only k h from till));
        behind = refl;
        others = λ q aside. inl refl;
      })
      by_answer (ok temp) e =
          let (answer, m) = replace_file fs path bytes h in
          let w = replace_file-Ends files path bytes temp h fs e in
          let new = fresh h path temp e in
          record {
            at_each_moment =
                λ k from till. moments files path bytes temp h new.apart k m from till w;
            behind = at_end files path bytes temp h new.apart m w;
            others = λ q aside. beside files path bytes temp h new answer m q aside w;
          }
