-- ===== src/Observations/Moves.antt =====
-- Moves of issue records and moves back: observations.py.
use mathlib.Core.Path.{subst}
use circled_wiki.Base.{
  String, ◌≡◌, refl, ap, sym, ◌∙◌, ◌⊎◌, inl, inr, Option, none, some, List, [], ◌∷◌, ◌==◌, arith,
  eq_iff, eq_refl, read, write, remove, read-write, read-remove, All, Bool-cases, Option-cases,
  if◌then◌else◌,
}
use circled_wiki.Observations.Migration.{Issues, move_back}

-- The two directories hold the same files with the same texts.
abbrev pub Agree : Issues → Issues → Type 0
Agree s t =
    (k : String) → (read k s.legacy ≡ read k t.legacy) × (read k s.workspace ≡ read k t.workspace)

pub Agree-trans : (s t u : Issues) → Agree s t → Agree t u → Agree s u
Agree-trans s t u a b k = let (x, y) = a k in let (z, w) = b k in (x ∙ z, y ∙ w)

abbrev returned : String → String → Issues → Issues
returned name text s = record {
  legacy = write name text s.legacy;
  workspace = remove name s.workspace;
}

move_back_settled :
    (name text : String) (s : Issues) → read name s.legacy ≡ some text → move_back name s ≡ s
unfolding move_back
move_back_settled name text s e = rw (e, move_back) refl

move_back_missing :
    (name : String) (s : Issues)
    → read name s.legacy ≡ none
    → read name s.workspace ≡ none
    → move_back name s ≡ s
unfolding move_back
move_back_missing name s e f = rw (e, f, move_back) refl

move_back_moves :
    (name text : String) (s : Issues)
    → read name s.legacy ≡ none
    → read name s.workspace ≡ some text
    → move_back name s ≡ returned name text s
unfolding move_back
move_back_moves name text s e f = rw (e, f, move_back) refl

returned-Agree :
    (name text : String) (s t : Issues)
    → Agree s t
    → Agree (returned name text s) (returned name text t)
returned-Agree name text s t a k =
    let (x, y) = a k in
    (
      read-write name k text s.legacy
          ∙ ap (λ (o : Option String). if name == k then some text else o) x
          ∙ sym (read-write name k text t.legacy),
      read-remove name k s.workspace
          ∙ ap (λ (o : Option String). if name == k then none else o) y
          ∙ sym (read-remove name k t.workspace),
    )

pub move_back-Agree :
    (name : String) (s t : Issues) → Agree s t → Agree (move_back name s) (move_back name t)
move_back-Agree name s t a =
    let (old, new) = a name in
    elim (Option-cases (read name s.legacy)) [
      | inr (text, there) ↦
          rw (move_back_settled name text s there, move_back_settled name text t (sym old ∙ there))
            a
      | inl gone ↦ elim (Option-cases (read name s.workspace)) [
        | inl free ↦
            rw
              (
                move_back_missing name s gone free,
                move_back_missing name t (sym old ∙ gone) (sym new ∙ free),
              )
              a
        | inr (text, put) ↦
            rw
              (
                move_back_moves name text s gone put,
                move_back_moves name text t (sym old ∙ gone) (sym new ∙ put),
              )
              (returned-Agree name text s t a)
      ]
    ]

abbrev pub moved_file : String → String → Issues → Issues
moved_file name text s = record {
  legacy = remove name s.legacy;
  workspace = write name text s.workspace;
}

-- A move back undoes the move of a file whose destination was free.
pub move_back-moved_file :
    (name text : String) (s : Issues)
    → read name s.legacy ≡ some text
    → read name s.workspace ≡ none
    → Agree (move_back name (moved_file name text s)) s
unfolding move_back
move_back-moved_file name text s there free =
    let gone : read name (remove name s.legacy) ≡ none =
      read-remove name name s.legacy ∙ (rw (eq_refl name) refl) in
    let put : read name (write name text s.workspace) ≡ some text =
      read-write name name text s.workspace ∙ (rw (eq_refl name) refl) in
    rw (move_back_moves name text (moved_file name text s) gone put) (λ k.
      elim (Bool-cases (name == k)) [
        | inl same ↦
            let named : name ≡ k = ground (arith, eq_iff name k, same) in
            (
              read-write name k text (remove name s.legacy)
                  ∙ rw same (subst (λ j. some text ≡ read j s.legacy) named (sym there)),
              read-remove name k (write name text s.workspace)
                  ∙ rw same (subst (λ j. none ≡ read j s.workspace) named (sym free)),
            )
        | inr other ↦ (
          read-write name k text (remove name s.legacy)
              ∙ rw other (read-remove name k s.legacy ∙ rw other refl),
          read-remove name k (write name text s.workspace)
              ∙ rw other (read-write name k text s.workspace ∙ rw other refl),
        )
      ])

-- No source that is still there has a destination.
abbrev pub AreFree : List String → Issues → Type 0
AreFree names s = All (λ name. (read name s.legacy ≡ none) ⊎ (read name s.workspace ≡ none)) names

pub moved-AreFree :
    (name text : String) (names : List String) (s : Issues)
    → AreFree names s
    → AreFree names (moved_file name text s)
moved-AreFree name text [] s h = tt
moved-AreFree name text (k ∷ names) s h = (
  elim (Bool-cases (name == k)) [
    | inl same ↦ inl (read-remove name k s.legacy ∙ rw same refl)
    | inr other ↦ elim h.0 [
      | inl gone ↦ inl (read-remove name k s.legacy ∙ rw other gone)
      | inr free ↦ inr (read-write name k text s.workspace ∙ rw other free)
    ]
  ],
  moved-AreFree name text names s h.1,
)
