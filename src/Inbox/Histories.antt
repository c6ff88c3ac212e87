-- ===== src/Inbox/Histories.antt =====
-- What every change of a task in inbox_review_queue.py keeps: the transitions form one history that
-- ends in the current state, and no reason is listed twice.
use circled_wiki.Base.{
  String, Bool, true, false, ◌≡◌, refl, sym, ◌∙◌, inl, inr, Option, none, some, List, [], ◌∷◌, ◌++◌,
  map, any, contains, is_some, arith, eq_iff, ◌==◌, Bool-cases,
}
use circled_wiki.Inbox.Model.{ReviewState, Requirement, Decision, ReviewTransition, ReviewTask}
use circled_wiki.Inbox.Contracts.{Reason, supported}
use circled_wiki.Inbox.Tasks.{
  move, add_transition, add_step, new_review, enqueued, with_requirement, has_reason,
  new_requirement,
}
use circled_wiki.Inbox.Transitions.{
  Escalated, escalated, update_first, escalated_requirement, settle, settled, expire, expires,
  expired, retried,
}

-- Each transition starts where the one before it ended.
abbrev pub Chained : Option ReviewState → List ReviewTransition → Option ReviewState → Type 0
Chained start [] end = start ≡ end
Chained start (t ∷ ts) end = (t.origin ≡ start) × Chained (some t.target) ts end

abbrev pub codes_of : List Requirement → List String
codes_of [] = []
codes_of (r ∷ rs) = r.reason_code ∷ codes_of rs

-- Supported reasons, each of them once.
abbrev pub AreListed : List String → Type 0
AreListed [] = Unit
AreListed (c ∷ cs) = (is_some (supported c) ≡ true) × (contains c cs ≡ false) × AreListed cs

abbrev pub IsSound : ReviewTask → Type 0
IsSound t = Chained none t.transitions t.current × AreListed (codes_of t.requirements)

Chained-append :
    (start : Option ReviewState) (ts : List ReviewTransition) (end : Option ReviewState)
    (t : ReviewTransition)
    → Chained start ts end
    → t.origin ≡ end
    → Chained start (ts ++ t ∷ []) (some t.target)
Chained-append start [] end t h e = (e ∙ sym h, refl)
Chained-append start (s ∷ ts) end t h e = (h.0, Chained-append (some s.target) ts end t h.1 e)

contains-append :
    (c d : String) (cs : List String)
    → contains d cs ≡ false
    → (d == c) ≡ false
    → contains d (cs ++ c ∷ []) ≡ false
unfolding contains
contains-append c d [] h e = rw e refl
contains-append c d (x ∷ xs) h e =
    let other : (d == x) ≡ false = ground (arith, h) in
    let later : contains d xs ≡ false = ground (arith, h) in
    rw (other, contains-append c d xs later e) refl

append-AreListed :
    (c : String) (cs : List String)
    → is_some (supported c) ≡ true
    → contains c cs ≡ false
    → AreListed cs
    → AreListed (cs ++ c ∷ [])
unfolding contains
append-AreListed c [] known new h = (known, refl, tt)
append-AreListed c (x ∷ xs) known new h =
    let other : (x == c) ≡ false = ground (arith, eq_iff x c, eq_iff c x, new) in
    let later : contains c xs ≡ false = ground (arith, new) in
    (h.0, contains-append c x xs h.1 other, append-AreListed c xs known later h.2)

any-has_reason :
    (c : String) (rs : List Requirement) → any (has_reason c) rs ≡ contains c (codes_of rs)
unfolding has_reason contains
any-has_reason c [] = refl
any-has_reason c (r ∷ rs) =
    let same : (r.reason_code == c) ≡ (c == r.reason_code) =
      ground (arith, eq_iff c r.reason_code, eq_iff r.reason_code c) in
    rw (same, any-has_reason c rs) refl

codes_of-append : (rs ss : List Requirement) → codes_of (rs ++ ss) ≡ codes_of rs ++ codes_of ss
codes_of-append [] ss = refl
codes_of-append (r ∷ rs) ss = rw (codes_of-append rs ss) refl

with_requirement-AreListed :
    (c : String) (policy : Reason) (rs : List Requirement)
    → supported c ≡ some policy
    → AreListed (codes_of rs)
    → AreListed (codes_of (with_requirement c policy rs))
unfolding with_requirement new_requirement
with_requirement-AreListed c policy rs known h = elim (Bool-cases (any (has_reason c) rs)) [
  | inl there ↦ rw there h
  | inr new ↦
      rw (new, codes_of-append rs (new_requirement c policy ∷ []))
        (append-AreListed c (codes_of rs) (rw known refl) (sym (any-has_reason c rs) ∙ new) h)
]

codes_of-map :
    (f : Requirement → Requirement)
    → ((r : Requirement) → (f r).reason_code ≡ r.reason_code)
    → (rs : List Requirement) → codes_of (map f rs) ≡ codes_of rs
codes_of-map f keeps [] = refl
codes_of-map f keeps (r ∷ rs) = rw (keeps r, codes_of-map f keeps rs) refl

codes_of-update_first :
    (p : Requirement → Bool) (f : Requirement → Requirement)
    → ((r : Requirement) → (f r).reason_code ≡ r.reason_code)
    → (rs : List Requirement) → codes_of (update_first p f rs) ≡ codes_of rs
unfolding update_first
codes_of-update_first p f keeps [] = refl
codes_of-update_first p f keeps (r ∷ rs) = elim (Bool-cases (p r)) [
  | inl hit ↦ rw hit (rw (keeps r) refl)
  | inr miss ↦ rw miss (rw (codes_of-update_first p f keeps rs) refl)
]

settle-reason_code :
    (c : String) (d : Decision) (r : Requirement) → (settle c d r).reason_code ≡ r.reason_code
unfolding settle
settle-reason_code c d r = elim (Bool-cases (has_reason c r)) [
  | inl y ↦ rw y refl
  | inr n ↦ rw n refl
]

expire-reason_code : (r : Requirement) → (expire r).reason_code ≡ r.reason_code
unfolding expire
expire-reason_code r = elim (Bool-cases (expires r)) [ inl y ↦ rw y refl | inr n ↦ rw n refl ]

pub new_review-IsSound : (id path now : String) → IsSound (new_review id path now)
unfolding new_review move add_transition add_step
new_review-IsSound id path now = ((refl, refl), tt)

-- A change of the current state adds the transition to it.
pub move-IsSound :
    (t : ReviewTask) (s : ReviewState) (outcome now : String)
    → IsSound t
    → IsSound (move t s outcome now)
unfolding move add_transition add_step
move-IsSound t s outcome now h = (Chained-append none t.transitions t.current _ h.0 refl, h.1)

pub enqueued-IsSound :
    (t : ReviewTask) (id path c : String) (policy : Reason) (now : String)
    → supported c ≡ some policy
    → IsSound t
    → IsSound (enqueued t id path c policy now)
unfolding enqueued move add_transition add_step
enqueued-IsSound t id path c policy now known h = (
  Chained-append none t.transitions t.current _ h.0 refl,
  with_requirement-AreListed c policy t.requirements known h.1,
)

pub escalated-IsSound :
    (e : Escalated) (now : String) (t : ReviewTask) → IsSound t → IsSound (escalated e now t)
unfolding escalated escalated_requirement move add_transition add_step
escalated-IsSound e now t h = (
  Chained-append none t.transitions t.current _ h.0 refl,
  rw
      (codes_of-update_first (has_reason "sensitivity_review_required")
        (escalated_requirement e now) (λ r. refl) t.requirements)
      h.1,
)

pub settled-IsSound :
    (t : ReviewTask) (c : String) (d : Decision) (policy : Reason) (now : String)
    → IsSound t
    → IsSound (settled t c d policy now)
unfolding settled move add_transition add_step
settled-IsSound t c d policy now h = (
  Chained-append none t.transitions t.current _ h.0 refl,
  rw (codes_of-map (settle c d) (settle-reason_code c d) t.requirements) h.1,
)

pub expired-IsSound :
    (t : ReviewTask) (actor now : String) → IsSound t → IsSound (expired t actor now)
unfolding expired move add_transition add_step
expired-IsSound t actor now h = (
  Chained-append none t.transitions t.current _ h.0 refl,
  rw (codes_of-map expire expire-reason_code t.requirements) h.1,
)

pub retried-IsSound :
    (t : ReviewTask) (reason now : String) → IsSound t → IsSound (retried t reason now)
unfolding retried add_transition add_step
retried-IsSound t reason now h = (Chained-append none t.transitions t.current _ h.0 refl, h.1)
