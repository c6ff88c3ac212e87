-- ===== src/Tasks/OpenRefresh.antt =====
-- The open Refresh Task of a workflow in a store: `find_open_refresh` of workflow.py behind writes.
use circled_wiki.Base.{
  String, ◌==◌, ◌≡◌, ◌≢◌, refl, ◌∙◌, true, some, [], ◌∷◌, inl, inr, Bool-cases, arith, eq_iff,
  is_some, File, parsed, unreadable, read, write, read-write, ok, >>-eq-ok, subst-ok,
}
use Prim.Native.String.{compare}
use text.Mathlib.Text.{is_lt}
use circled_wiki.Tasks.Model.{Task}
use circled_wiki.Tasks.Store.{TaskStore, write_task, validate_id}
use circled_wiki.Tasks.Refresh.{is_open_refresh, find_open_refresh}

-- Every task is in the file that its id names.
abbrev pub IsFiled : TaskStore → Type 0
IsFiled [] = Unit
IsFiled ((k, parsed t) ∷ s) = (t.task_id ≡ k) × IsFiled s
IsFiled ((k, unreadable) ∷ s) = IsFiled s

IsFiled-cons : (k : String) (f : File Task) (s : TaskStore) → IsFiled ((k, f) ∷ s) → IsFiled s
IsFiled-cons k (parsed t) s h = h.1
IsFiled-cons k unreadable s h = h

IsFiled-head :
    (k : String) (f : File Task) (s s' : TaskStore)
    → IsFiled ((k, f) ∷ s)
    → IsFiled s'
    → IsFiled ((k, f) ∷ s')
IsFiled-head k (parsed t) s s' h h' = (h.0, h')
IsFiled-head k unreadable s s' h h' = h'

pub IsFiled-write : (t : Task) (s : TaskStore) → IsFiled s → IsFiled (write t.task_id (parsed t) s)
unfolding write
IsFiled-write t [] h = (refl, tt)
IsFiled-write t ((j, f) ∷ s) h = elim (Bool-cases (j == t.task_id)) [
  | inl same ↦ rw same (refl, IsFiled-cons j f s h)
  | inr other ↦ elim (Bool-cases (is_lt (compare t.task_id j))) [
    | inl before ↦ rw (other, before) (refl, h)
    | inr after ↦
        rw (other, after)
          (IsFiled-head j f s (write t.task_id (parsed t) s) h
            (IsFiled-write t s (IsFiled-cons j f s h)))
  ]
]

pub found_is_open :
    (s : TaskStore) (w : String) (t : Task)
    → find_open_refresh s w ≡ some t
    → is_open_refresh w t ≡ true
unfolding find_open_refresh
found_is_open [] w t e = absurd (cc)
found_is_open ((j, unreadable) ∷ s) w t e = found_is_open s w t e
found_is_open ((j, parsed u) ∷ s) w t e = elim (Bool-cases (is_open_refresh w u)) [
  | inl open_now ↦ cc (open_now, e)
  | inr closed ↦ found_is_open s w t (rw closed at e)
]

-- The open task that was found has a file.
pub found_is_there :
    (s : TaskStore) (w : String) (t : Task)
    → IsFiled s
    → find_open_refresh s w ≡ some t
    → is_some (read t.task_id s) ≡ true
unfolding find_open_refresh read
found_is_there [] w t h e = absurd (cc)
found_is_there ((j, unreadable) ∷ s) w t h e = elim (Bool-cases (j == t.task_id)) [
  | inl same ↦ rw same refl
  | inr other ↦ rw other (found_is_there s w t h e)
]
found_is_there ((j, parsed u) ∷ s) w t h e = elim (Bool-cases (j == t.task_id)) [
  | inl same ↦ rw same refl
  | inr other ↦ elim (Bool-cases (is_open_refresh w u)) [
    | inl open_now ↦
        let own : some u ≡ some t = rw open_now at e in
        let named : j ≡ t.task_id = cc (own, h.0) in
        ground (arith, eq_iff j t.task_id, named, other)
    | inr closed ↦ rw other (found_is_there s w t h.1 (rw closed at e))
  ]
]

-- The open task of the workflow, if there is one, is the one with this id.
abbrev pub IsOnly : TaskStore → String → String → Type 0
IsOnly s w id = (u : Task) → find_open_refresh s w ≡ some u → u.task_id ≡ id

-- Written under its id, an open task takes the place of the open task that was there.
pub find_open_refresh-write :
    (t : Task) (s : TaskStore) (w : String)
    → is_open_refresh w t ≡ true
    → IsFiled s
    → IsOnly s w t.task_id
    → find_open_refresh (write t.task_id (parsed t) s) w ≡ some t
unfolding find_open_refresh write
find_open_refresh-write t [] w open_now h only = rw open_now refl
find_open_refresh-write t ((j, unreadable) ∷ s) w open_now h only =
    elim (Bool-cases (j == t.task_id)) [
      | inl same ↦ rw (same, open_now) refl
      | inr other ↦ elim (Bool-cases (is_lt (compare t.task_id j))) [
        | inl before ↦ rw (other, before, open_now) refl
        | inr after ↦ rw (other, after) (find_open_refresh-write t s w open_now h only)
      ]
    ]
find_open_refresh-write t ((j, parsed u) ∷ s) w open_now h only =
    elim (Bool-cases (j == t.task_id)) [
      | inl same ↦ rw (same, open_now) refl
      | inr other ↦ elim (Bool-cases (is_lt (compare t.task_id j))) [
        | inl before ↦ rw (other, before, open_now) refl
        | inr after ↦ elim (Bool-cases (is_open_refresh w u)) [
          | inl first ↦
              let named : u.task_id ≡ t.task_id = only u (rw first refl) in
              ground (arith, eq_iff j t.task_id, h.0, named, other)
          | inr closed ↦
              rw (other, after)
                (rw closed
                  (find_open_refresh-write t s w open_now h.1 (λ v e. only v (rw closed e))))
        ]
      ]
    ]

-- No other file than the one with this name is different.
abbrev pub AgreeBeside : String → TaskStore → TaskStore → Type 0
AgreeBeside id s s' = (k : String) → id ≢ k → read k s' ≡ read k s

pub write-AgreeBeside :
    (id : String) (f : File Task) (s : TaskStore) → AgreeBeside id s (write id f s)
write-AgreeBeside id f s k other = read-write id k f s ∙ (elim (Bool-cases (id == k)) [
  | inl same ↦ absurd (other (ground (arith, eq_iff id k, same)))
  | inr away ↦ rw away refl
])

-- The store after the write of an open task.
pub record Settled (s s' : TaskStore) (w : String) (t : Task) : Type 0 where
  pub filed : IsFiled s'
  pub found : find_open_refresh s' w ≡ some t
  pub beside : AgreeBeside t.task_id s s'

pub write_task-Settled :
    (s s' : TaskStore) (w : String) (t t' : Task)
    → is_open_refresh w t ≡ true
    → IsFiled s
    → IsOnly s w t.task_id
    → write_task s t ≡ ok (s', t')
    → Settled s s' w t' × (t ≡ t')
unfolding write_task
write_task-Settled s s' w t t' open_now h only e =
    let (_, made) = >>-eq-ok (validate_id t.task_id) _ e in
    subst-ok (λ (x : TaskStore × Task). Settled s x.0 w x.1 × (t ≡ x.1)) made
      (
        record {
          filed = IsFiled-write t s h;
          found = find_open_refresh-write t s w open_now h only;
          beside = write-AgreeBeside t.task_id (parsed t) s;
        },
        refl,
      )
