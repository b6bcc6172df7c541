-- ===== src/Cli/Files/Writing.antt =====
-- What `writeJSONAtomic` of internal/cli/root.go does, as a list of calls on one temporary file.
use regbot.Base.{
  Bool, true, false, List, [], ◌∷◌, Str, Option, none, some, ok, str_eq, str_eq_refl, take, ◌≡◌,
  refl, inl, inr, Option-cases,
}
use regbot.Effects.{Act}
use regbot.Cli.Files.{
  FileEvent, created, restricted, synced, closed, removed, wrote, renamed, content, FileSystem,
  attempt, check, check_write, close_quietly, rename_step, close_step, sync_step, fill,
  replace_file,
}

-- Calls about the file, other than the renaming and the removal.
unfoldable pub touches : Str → FileEvent → Bool
touches temp (created n) = str_eq n temp
touches temp (restricted n) = str_eq n temp
touches temp (synced n) = str_eq n temp
touches temp (closed n) = str_eq n temp
touches temp (removed n) = false
touches temp (wrote n bytes) = str_eq n temp
touches temp (renamed from to) = false

abbrev pub is_none : Option Str → Bool
is_none none = true
is_none (some e) = false

module _ (files : Str → Option Str) (path bytes temp : Str) (h : List FileEvent) where
  -- The events since `h`: calls about the temporary file, and then, if `committed`, its renaming while
  -- it held the bytes, and its removal.
  pub data Writing : List FileEvent → Bool → Type 0 where
    start : Writing h false
    touch :
        {m : List FileEvent} (e : FileEvent)
        → touches temp e ≡ true
        → Writing m false
        → Writing (e ∷ m) false
    commit :
        {m : List FileEvent}
        → content files m temp ≡ some bytes
        → Writing m false
        → Writing (renamed temp path ∷ m) true
    clean :
        {m : List FileEvent} {committed : Bool}
        → Writing m committed
        → Writing (removed temp ∷ m) committed

  abbrev pub Ends : Option Str × List FileEvent → Type 0
  Ends (answer, m) = Writing m (is_none answer)

  module _ (fs : FileSystem) where
    check-Ends :
        (answer : List FileEvent → Option Str) (e : FileEvent) (abandon : Act FileEvent (Unit {0}))
        (next : Act FileEvent (Option Str)) (m : List FileEvent)
        → touches temp e ≡ true
        → Writing m false
        → Writing (abandon m).1 false
        → (Writing (e ∷ m) false → Ends (next (e ∷ m)))
        → Ends (check fs answer e abandon next m)
    check-Ends answer e abandon next m own w left go = elim (Option-cases (answer m)) [
      | inl p ↦ rw p (go (touch e own w))
      | inr (x, p) ↦ rw p left
    ]

    closes : (m : List FileEvent) → Writing m false → Writing (close_quietly fs temp m).1 false
    unfolding touches
    closes m w = elim (Option-cases (fs.close m temp)) [
      | inl p ↦ rw p (touch (closed temp) (str_eq_refl temp) w)
      | inr (x, p) ↦ rw p w
    ]

    check_write-Ends :
        (next : Act FileEvent (Option Str)) (m : List FileEvent)
        → Writing m false
        → (Writing (wrote temp bytes ∷ m) false → Ends (next (wrote temp bytes ∷ m)))
        → Ends (check_write fs temp bytes next m)
    unfolding touches
    check_write-Ends next m w go = elim (Option-cases (fs.write m temp bytes)) [
      | inl p ↦ rw p (go (touch (wrote temp bytes) (str_eq_refl temp) w))
      | inr ((n, x), p) ↦ rw p (
          closes (wrote temp (take n bytes) ∷ m)
            (touch (wrote temp (take n bytes)) (str_eq_refl temp) w))
    ]

    renames-Ends :
        (m : List FileEvent)
        → content files m temp ≡ some bytes
        → Writing m false
        → Ends (rename_step fs path temp m)
    renames-Ends m held w = elim (Option-cases (fs.rename m temp path)) [
      | inl p ↦ rw p (commit held w)
      | inr (x, p) ↦ rw p w
    ]

    fill-Ends :
        (m : List FileEvent)
        → content files m temp ≡ some []
        → Writing m false
        → Ends (fill fs path bytes temp m)
    unfolding fill touches
    fill-Ends m fresh w =
        check-Ends (λ k. fs.chmod k temp) (restricted temp) (close_quietly fs temp)
          (check_write fs temp bytes (sync_step fs path temp)) m same w (closes m w)
          λ w1. check_write-Ends (sync_step fs path temp) (restricted temp ∷ m) w1 λ w2.
            check-Ends (λ k. fs.sync k temp) (synced temp) (close_quietly fs temp)
              (close_step fs path temp) (wrote temp bytes ∷ restricted temp ∷ m) same w2
              (closes (wrote temp bytes ∷ restricted temp ∷ m) w2)
              λ w3.
                check-Ends (λ k. fs.close k temp) (closed temp) (λ k. (tt, k))
                  (rename_step fs path temp) (synced temp ∷ wrote temp bytes ∷ restricted temp ∷ m)
                  same w3 w3
                  λ w4.
                    renames-Ends
                      (closed temp ∷ synced temp ∷ wrote temp bytes ∷ restricted temp ∷ m)
                      (rw (same, fresh) refl) w4
      where
        same : str_eq temp temp ≡ true
        same = str_eq_refl temp

    pub replace_file-Ends : fs.create h path ≡ ok temp → Ends (replace_file fs path bytes h)
    unfolding replace_file touches
    replace_file-Ends e =
        let (answer, m) = fill fs path bytes temp (created temp ∷ h) in
        rw e (
          removes answer m (
            fill-Ends (created temp ∷ h) (rw (str_eq_refl temp) refl)
              (touch (created temp) (str_eq_refl temp) start)))
      where
        removes :
            (answer : Option Str) (m : List FileEvent)
            → Writing m (is_none answer)
            → Writing (attempt fs (λ k. fs.remove k temp) (removed temp) m).1 (is_none answer)
        removes answer m w = elim (Option-cases (fs.remove m temp)) [
          | inl p ↦ rw p (clean w)
          | inr (x, p) ↦ rw p w
        ]
