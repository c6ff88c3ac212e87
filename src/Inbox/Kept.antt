-- ===== src/Inbox/Kept.antt =====
-- Each operation of inbox_review_queue.py keeps every task of the queue sound.
use circled_wiki.Base.{
  String, Bool, not, ◌||◌, ◌≡◌, refl, inl, inr, Option, none, some, any, parsed, read, Everywhere,
  Everywhere-write, Everywhere-remove, Everywhere-read, is_blank, strip, ◌==◌, Bool-cases,
  Option-cases, Result, ok, >>=-eq-ok, raise_if->>-eq-ok, or_raise->>=-eq-ok, subst-ok,
}
use circled_wiki.Inbox.Model.{
  ReviewState, Decision, ReviewTask, ReviewQueue, InboxError, invalid_reason, invalid_stage,
  outside_root, unreadable_task, unsupported_reason, unresolved_requirements, empty_transition,
}
use circled_wiki.Inbox.Contracts.{supported}
use circled_wiki.Inbox.Tasks.{
  item_path, parse_task, new_review, ensure_inbox_task, enqueued, enqueue_inbox_review,
  get_inbox_review, move, has_reason,
}
use circled_wiki.Inbox.Transitions.{settled, expired, retried, stripped_state}
use circled_wiki.Inbox.Reviews.{
  Answer, unchanged, resolve_task, reopen_task, expires_now, complete_task, suspend_task,
  advance_task, retry_task,
}
use circled_wiki.Inbox.Reads.{get_inbox_review-IsFound, parse_task_inverse}
use circled_wiki.Inbox.Histories.{
  IsSound, new_review-IsSound, move-IsSound, enqueued-IsSound, settled-IsSound, expired-IsSound,
  retried-IsSound,
}

abbrev pub AreSound : ReviewQueue → Type 0
AreSound queue = Everywhere IsSound queue

pub ensured_kept :
    (queue : ReviewQueue) (id : String) (inbox : Option String) (now : String)
    (x : ReviewQueue × String × Bool)
    → AreSound queue
    → ensure_inbox_task queue id inbox now ≡ ok x
    → AreSound x.0
unfolding ensure_inbox_task
ensured_kept queue id inbox now x h e =
    let (name, _, e1) = >>=-eq-ok (item_path id) _ e in
    let (path, _, e2) = or_raise->>=-eq-ok inbox outside_root _ e1 in
    elim (Option-cases (read name queue)) [
      | inl new ↦
          subst-ok (λ (y : ReviewQueue × String × Bool). AreSound y.0) (rw new at e2)
            (Everywhere-write IsSound name (parsed (new_review id path now)) queue h
              (new_review-IsSound id path now))
      | inr (f, there) ↦
          subst-ok (λ (y : ReviewQueue × String × Bool). AreSound y.0) (rw there at e2) h
    ]

pub read-IsSound :
    (queue : ReviewQueue) (name : String) (t : ReviewTask)
    → AreSound queue
    → read name queue ≡ some (parsed t)
    → IsSound t
read-IsSound queue name t h there = Everywhere-read IsSound name (parsed t) queue h there

pub required_kept :
    (queue : ReviewQueue) (id : String) (inbox : Option String) (stage reason now : String)
    (x : ReviewQueue × String × String)
    → AreSound queue
    → enqueue_inbox_review queue id inbox stage reason now ≡ ok x
    → AreSound x.0
unfolding enqueue_inbox_review
required_kept queue id inbox stage reason now x h e =
    let (policy, known, e1) = or_raise->>=-eq-ok (supported reason) invalid_reason _ e in
    let (_, e2) = raise_if->>-eq-ok (not (stage == policy.current_stage)) invalid_stage _ e1 in
    let ((made, name, reused), was, e3) = >>=-eq-ok (ensure_inbox_task queue id inbox now) _ e2 in
    let (path, _, e4) = or_raise->>=-eq-ok inbox outside_root _ e3 in
    let (found, there, e5) = >>=-eq-ok (parse_task (read name made)) _ e4 in
    let (t, is_there, e6) = or_raise->>=-eq-ok found unreadable_task _ e5 in
    let made_sound = ensured_kept queue id inbox now (made, name, reused) h was in
    let t_sound =
      read-IsSound made name t made_sound
        (parse_task_inverse (read name made) t (cc (there, is_there))) in
    subst-ok (λ (y : ReviewQueue × String × String). AreSound y.0) e6
      (Everywhere-write IsSound name (parsed (enqueued t id path reason policy now)) made made_sound
        (enqueued-IsSound t id path reason policy now known t_sound))

pub found-IsSound :
    (is_iso : String → Bool) (queue : ReviewQueue) (id name : String) (found : Option ReviewTask)
    → AreSound queue
    → get_inbox_review is_iso queue id ≡ ok (name, found)
    → (t : ReviewTask) → found ≡ some t
    → IsSound t
found-IsSound is_iso queue id name found h got t there =
    let (_, stored, _) = get_inbox_review-IsFound is_iso queue id name t (cc (got, there)) in
    read-IsSound queue name t h stored

module _ (queue : ReviewQueue) (name : String) (h : AreSound queue) where
  pub resolve_task_kept :
      (found : Option ReviewTask) (reason : String) (d : Decision) (now : String)
      (x : ReviewQueue × Answer)
      → ((t : ReviewTask) → found ≡ some t → IsSound t)
      → resolve_task queue name found reason d now ≡ ok x
      → AreSound x.0
  unfolding resolve_task unchanged
  resolve_task_kept none reason d now x sound e =
      subst-ok (λ (y : ReviewQueue × Answer). AreSound y.0) e h
  resolve_task_kept (some t) reason d now x sound e =
      elim (Bool-cases (any (has_reason reason) t.requirements)) [
        | inl hit ↦
            let (policy, known, e1) =
              or_raise->>=-eq-ok (supported reason) unsupported_reason _ (rw hit at e) in
            subst-ok (λ (y : ReviewQueue × Answer). AreSound y.0) e1
              (Everywhere-write IsSound name (parsed (settled t reason d policy now)) queue h
                (settled-IsSound t reason d policy now (sound t refl)))
        | inr miss ↦ subst-ok (λ (y : ReviewQueue × Answer). AreSound y.0) (rw miss at e) h
      ]

  pub reopen_task_kept :
      (found : Option ReviewTask) (actor now : String) (x : ReviewQueue × Answer)
      → ((t : ReviewTask) → found ≡ some t → IsSound t)
      → reopen_task queue name found actor now ≡ ok x
      → AreSound x.0
  unfolding reopen_task unchanged
  reopen_task_kept none actor now x sound e =
      subst-ok (λ (y : ReviewQueue × Answer). AreSound y.0) e h
  reopen_task_kept (some t) actor now x sound e =
      elim (Bool-cases (any expires_now t.requirements)) [
        | inl hit ↦
            subst-ok (λ (y : ReviewQueue × Answer). AreSound y.0) (rw hit at e)
              (Everywhere-write IsSound name (parsed (expired t actor now)) queue h
                (expired-IsSound t actor now (sound t refl)))
        | inr miss ↦ subst-ok (λ (y : ReviewQueue × Answer). AreSound y.0) (rw miss at e) h
      ]

  pub complete_task_kept :
      (found : Option ReviewTask) (resolved : Result InboxError Bool) (x : ReviewQueue × Bool)
      → complete_task queue name found resolved ≡ ok x
      → AreSound x.0
  unfolding complete_task
  complete_task_kept none resolved x e = subst-ok (λ (y : ReviewQueue × Bool). AreSound y.0) e h
  complete_task_kept (some t) resolved x e =
      let (b, _, e1) = >>=-eq-ok resolved _ e in
      let (_, e2) = raise_if->>-eq-ok (not b) unresolved_requirements _ e1 in
      subst-ok (λ (y : ReviewQueue × Bool). AreSound y.0) e2
        (Everywhere-remove IsSound name queue h)

  pub suspend_task_kept : (found : Option ReviewTask) → AreSound (suspend_task queue name found).0
  unfolding suspend_task
  suspend_task_kept none = h
  suspend_task_kept (some t) = Everywhere-remove IsSound name queue h

  pub advance_task_kept :
      (found : Option ReviewTask) (next : ReviewState) (outcome now : String)
      (x : ReviewQueue × Bool)
      → ((t : ReviewTask) → found ≡ some t → IsSound t)
      → advance_task queue name found next outcome now ≡ ok x
      → AreSound x.0
  unfolding advance_task
  advance_task_kept none next outcome now x sound e =
      subst-ok (λ (y : ReviewQueue × Bool). AreSound y.0) e h
  advance_task_kept (some t) next outcome now x sound e =
      let (_, e1) =
        raise_if->>-eq-ok
          (is_blank next.stage
            || is_blank next.status
            || is_blank next.actor
            || is_blank next.next_action
            || is_blank outcome)
          empty_transition _ e in
      subst-ok (λ (y : ReviewQueue × Bool). AreSound y.0) e1
        (Everywhere-write IsSound name (parsed (move t (stripped_state next) (strip outcome) now))
          queue h (move-IsSound t (stripped_state next) (strip outcome) now (sound t refl)))

  pub retry_task_kept :
      (found : Option ReviewTask) (reason now : String)
      → ((t : ReviewTask) → found ≡ some t → IsSound t)
      → AreSound (retry_task queue name found reason now).0
  unfolding retry_task
  retry_task_kept none reason now sound = h
  retry_task_kept (some t) reason now sound =
      Everywhere-write IsSound name (parsed (retried t reason now)) queue h
        (retried-IsSound t reason now (sound t refl))
