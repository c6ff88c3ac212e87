-- ===== src/Observations/Rollback.antt =====
-- A failed move of issue records in observations.py is undone.
use mathlib.Core.Path.{subst}
use circled_wiki.Base.{
  String, Bool, true, false, ◌≡◌, refl, ap, sym, ◌&&◌, ◌⊎◌, inl, inr, none, some, List, [], ◌∷◌,
  read, is_some, All, Bool-cases, Option-cases, Result, ok, err, raise_if->>-eq-ok, >>=-eq-ok,
  >>-eq-ok, ◌>>◌, ◌>>=◌, subst-ok,
}
use circled_wiki.Observations.Migration.{
  Issues, MigrationError, destination_exists, rollback_failed, can_move_back, undone, candidates_of,
  check_destinations, move_back, roll_back, move_files, finished, planned, Migration,
  migrate_legacy_system_issues,
}
use circled_wiki.Observations.Moves.{
  Agree, Agree-trans, moved_file, move_back-Agree, move_back-moved_file, AreFree, moved-AreFree,
}

-- The directories after the moves of these files alone, the last in front.
unfoldable pub after_moves : List String → Issues → Issues
after_moves [] s = s
after_moves (name ∷ names) s =
    let before = after_moves names s in
    elim (read name before.legacy) [ none ↦ before | some text ↦ moved_file name text before ]

-- None of these files has its destination.
abbrev pub HaveRoom : List String → Issues → Type 0
HaveRoom names s = All (λ name. read name s.workspace ≡ none) names

checked-HaveRoom :
    (s : Issues) (names : List String)
    → check_destinations s.workspace names ≡ ok tt
    → HaveRoom names s
unfolding check_destinations
checked-HaveRoom s [] e = tt
checked-HaveRoom s (name ∷ names) e =
    let (free, rest) = raise_if->>-eq-ok (is_some (read name s.workspace)) destination_exists _ e in
    (
      elim (Option-cases (read name s.workspace)) [
        | inl there_not ↦ there_not
        | inr (text, there) ↦ let f : true ≡ false = rw there at free in absurd (cc (f))
      ],
      checked-HaveRoom s names rest,
    )

HaveRoom-AreFree : (names : List String) (s : Issues) → HaveRoom names s → AreFree names s
HaveRoom-AreFree [] s h = tt
HaveRoom-AreFree (name ∷ names) s h = (inr h.0, HaveRoom-AreFree names s h.1)

-- The directories are as after some of the moves, for which there was room; not a single one is
-- left where the error is another one than that of a move back.
abbrev pub IsLeftBy : MigrationError → Issues → Issues → Type 0
IsLeftBy e before after =
    (names : List String) × HaveRoom names before
    × Agree after (after_moves names before)
    × ((e ≡ rollback_failed) ⊎ (names ≡ []))

-- The same of an outcome.
abbrev Left : Type 0
Left = Issues × Result MigrationError (List String)

abbrev AllLeft : Issues → Left → Type 0
AllLeft before (after, ok moved) = Unit
AllLeft before (after, err e) = IsLeftBy e before after

untouched : (s : Issues) (e : MigrationError) → IsLeftBy e s s
unfolding after_moves
untouched s e = ([], tt, λ k. (refl, refl), inr refl)

module _ (refuses refuses_back : String → Bool) (s0 : Issues) where
  -- Each of these moves, the last in front, found its file and room for it.
  WereMoved : List String → Type 0
  WereMoved [] = Unit
  WereMoved (name ∷ names) =
      (text : String) × (read name (after_moves names s0).legacy ≡ some text)
      × (read name (after_moves names s0).workspace ≡ none)
      × WereMoved names

  after_move :
      (name text : String) (moved : List String)
      → read name (after_moves moved s0).legacy ≡ some text
      → after_moves (name ∷ moved) s0 ≡ moved_file name text (after_moves moved s0)
  unfolding after_moves
  after_move name text moved there = rw (there, after_moves) refl

  -- A move back from the state behind the last move.
  moved_back :
      (name : String) (moved : List String) (s : Issues)
      → WereMoved (name ∷ moved)
      → Agree s (after_moves (name ∷ moved) s0)
      → Agree (move_back name s) (after_moves moved s0)
  unfolding WereMoved
  moved_back name moved s (text, there, room, _) h =
      let h1 = subst (λ x. Agree s x) (after_move name text moved there) h in
      Agree-trans (move_back name s) (move_back name (moved_file name text (after_moves moved s0)))
        (after_moves moved s0)
        (move_back-Agree name s (moved_file name text (after_moves moved s0)) h1)
        (move_back-moved_file name text (after_moves moved s0) there room)

  rolled_back :
      (moved : List String) (s after : Issues) (e : MigrationError)
      → WereMoved moved
      → HaveRoom moved s0
      → Agree s (after_moves moved s0)
      → undone {A = List String} (roll_back refuses refuses_back moved s) ≡ (after, err e)
      → IsLeftBy e s0 after
  unfolding roll_back undone WereMoved after_moves
  rolled_back [] s after e were room h done =
      ([], tt, subst (λ x. Agree x s0) (ap (λ (x : Left). x.0) done) h, inr refl)
  rolled_back (name ∷ moved) s after e were room h done =
      elim (Bool-cases (can_move_back name s && refuses_back name)) [
        | inl stuck ↦
            (let done1 : (s, err rollback_failed) ≡ (after, err e) = rw stuck at done in
              subst (AllLeft s0) done1 (name ∷ moved, room, h, inl refl))
        | inr on ↦
            rolled_back moved (move_back name s) after e were.3 room.1
              (moved_back name moved s were h) (rw on at done)
      ]

  -- When the rest of the moves fails.
  failed-IsLeftBy :
      (names moved : List String) (after : Issues) (e : MigrationError)
      → HaveRoom names s0
      → AreFree names (after_moves moved s0)
      → HaveRoom moved s0
      → WereMoved moved
      → move_files refuses refuses_back names (after_moves moved s0) moved ≡ (after, err e)
      → IsLeftBy e s0 after
  unfolding move_files WereMoved
  failed-IsLeftBy [] moved after e room free made were done = absurd (cc (done))
  failed-IsLeftBy (name ∷ names) moved after e room free made were done =
      let s = after_moves moved s0 in
      let undo = undone {A = List String} (roll_back refuses refuses_back moved s) in
      elim (Option-cases (read name s.legacy)) [
        | inl gone ↦
            (let done1 : undo ≡ (after, err e) = rw (gone, move_files) at done in
              rolled_back moved s after e were made (λ k. (refl, refl)) done1)
        | inr (text, there) ↦ elim (Bool-cases (refuses name)) [
          | inl refused ↦
              (let done1 : undo ≡ (after, err e) = rw (there, refused, move_files) at done in
                rolled_back moved s after e were made (λ k. (refl, refl)) done1)
          | inr allowed ↦
              (let done1 : move_files refuses refuses_back names (moved_file name text s)
                      (name ∷ moved)
                    ≡ (after, err e) =
                  rw (there, allowed, move_files) at done in
                let step : moved_file name text s ≡ after_moves (name ∷ moved) s0 =
                  sym (after_move name text moved there) in
                let open_there : read name s.workspace ≡ none = elim free.0 [
                  | inl gone ↦ absurd (cc (gone, there))
                  | inr f ↦ f
                ] in
                failed-IsLeftBy names (name ∷ moved) after e room.1
                  (subst (AreFree names) step (moved-AreFree name text names s free.1))
                  (room.0, made) (text, there, open_there, were)
                  (subst
                    (λ x. move_files refuses refuses_back names x (name ∷ moved) ≡ (after, err e))
                    step done1))
        ]
      ]

  finished-IsLeftBy :
      (names : List String) (x : Left) (after : Issues) (e : MigrationError)
      → ((s : Issues) (f : MigrationError) → x ≡ (s, err f) → IsLeftBy f s0 s)
      → finished names x ≡ (after, err e)
      → IsLeftBy e s0 after
  unfolding finished
  finished-IsLeftBy names (s, err f) after e failed done =
      let same : s ≡ after = ap (λ (y : Issues × Result MigrationError Migration). y.0) done in
      let reason : f ≡ e = cc (done) in
      subst (λ g. IsLeftBy g s0 after) reason
        (subst (λ (y : Issues). IsLeftBy f s0 y) same (failed s f refl))
  finished-IsLeftBy names (s, ok moved) after e failed done = absurd (cc (done))

  planned-IsLeftBy :
      (apply : Bool) (names : Result MigrationError (List String)) (after : Issues)
      (e : MigrationError)
      → ((ns : List String) → names ≡ ok ns → HaveRoom ns s0)
      → planned refuses refuses_back s0 apply names ≡ (after, err e)
      → IsLeftBy e s0 after
  unfolding planned after_moves WereMoved
  planned-IsLeftBy apply (err f) after e room done =
      let same : s0 ≡ after = ap (λ (y : Issues × Result MigrationError Migration). y.0) done in
      subst (λ (y : Issues). IsLeftBy e s0 y) same (untouched s0 e)
  planned-IsLeftBy false (ok ns) after e room done = absurd (cc (done))
  planned-IsLeftBy true (ok ns) after e room done =
      finished-IsLeftBy ns (move_files refuses refuses_back ns s0 []) after e
        (λ s f failed.
          failed-IsLeftBy ns [] s f (room ns refl) (HaveRoom-AreFree ns s0 (room ns refl)) tt tt
            failed)
        done

  -- A migration of issue records that raises leaves both directories with the files and the texts
  -- that they had before it, unless the error is that of a move back. Then they are as after the
  -- moves of some files alone, for none of which there was a file in the way: no text is lost.
  pub migrate_legacy_system_issues-IsLeftBy :
      (references : List String) (apply : Bool) (after : Issues) (e : MigrationError)
      → migrate_legacy_system_issues refuses refuses_back s0 references apply ≡ (after, err e)
      → IsLeftBy e s0 after
  unfolding migrate_legacy_system_issues
  migrate_legacy_system_issues-IsLeftBy references apply after e done =
      planned-IsLeftBy apply
        (candidates_of s0.legacy references >>= λ names.
          check_destinations s0.workspace names >> ok names)
        after e
        (λ ns h.
          let (names, _, e1) = >>=-eq-ok (candidates_of s0.legacy references) _ h in
          let (checked, e2) = >>-eq-ok (check_destinations s0.workspace names) _ e1 in
          subst-ok (λ (x : List String). HaveRoom x s0) e2 (checked-HaveRoom s0 names checked))
        done
