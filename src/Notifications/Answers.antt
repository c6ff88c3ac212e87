-- ===== src/Notifications/Answers.antt =====
-- Acknowledging a notification, and what is listed as open: notification_store.py.
use mathlib.Core.Path.{subst}
use circled_wiki.Base.{
  String, ◌≡◌, refl, sym, Bool, true, false, not, Option, none, some, List, [], ◌∷◌, is_blank,
  contains, is_some, select, if◌then◌else◌, Directory, File, parsed, unreadable, read, read-write,
  eq_refl, Result, ok, >>=-eq-ok, >>-eq-ok, subst-ok, raise_if->>-eq-ok,
}
use circled_wiki.Notifications.Model.{Notification, Acknowledgement, Workspace, NotificationError}
use circled_wiki.Notifications.Operations.{
  events, acknowledgement, read_json, check_id, has_id, put_acknowledgement,
  acknowledge_user_notification, require_acknowledged_user_notification, is_listed, list_one,
  list_from, list_user_notifications,
}

acknowledged_file :
    (w : Workspace) (id actor now : String) (o : Option Acknowledgement)
    → acknowledgement w id ≡ ok o
    → let x = put_acknowledgement w id actor now o in
      (acknowledgement x.0 id ≡ ok (some x.1)) × (x.0.inbox ≡ w.inbox)
unfolding put_acknowledgement
acknowledged_file w id actor now (some a) e = (e, refl)
acknowledged_file w id actor now none e =
    (unfold acknowledgement in rw (read-write id id _ w.acknowledgements) (simp eq_refl), refl)

pub read_json-eq-ok :
    {A : Type 0} (o : Option (File A)) (a : A) → read_json o ≡ ok a → o ≡ some (parsed a)
unfolding read_json
read_json-eq-ok none a e = absurd (cc)
read_json-eq-ok (some unreadable) a e = absurd (cc)
read_json-eq-ok (some (parsed b)) a e = subst-ok (λ x. some (parsed b) ≡ some (parsed x)) e refl

again_lem :
    (w : Workspace) (id actor now : String) (n : Notification) (a : Acknowledgement)
    → check_id id ≡ ok tt
    → is_blank actor ≡ false
    → read id w.inbox ≡ some (parsed n)
    → not (has_id n.notification_id id) ≡ false
    → acknowledgement w id ≡ ok (some a)
    → acknowledge_user_notification w id actor now ≡ ok (w, a, true)
unfolding acknowledge_user_notification read_json put_acknowledgement
again_lem w id actor now n a safe filled stored own known = simp (safe, filled, stored, own, known)

required_lem :
    (w : Workspace) (id : String) (n : Notification) (a : Acknowledgement)
    → check_id id ≡ ok tt
    → read id w.inbox ≡ some (parsed n)
    → not (has_id n.notification_id id) ≡ false
    → acknowledgement w id ≡ ok (some a)
    → contains n.event events ≡ true
    → require_acknowledged_user_notification w id n.event ≡ ok n
unfolding require_acknowledged_user_notification read_json
required_lem w id n a safe stored own known event = simp (safe, stored, own, known, event, eq_refl)

-- An acknowledgement is given once, and it is what an action on the notification needs. A second
-- call, by any non-blank actor, changes no file and repeats the first acknowledgement; and the
-- stored notification is then found, where its event is one of the known ones.
pub acknowledged_once :
    (w w' : Workspace) (id actor now actor' now' : String) (a : Acknowledgement) (reused : Bool)
    → acknowledge_user_notification w id actor now ≡ ok (w', a, reused)
    → is_blank actor' ≡ false
    → (n : Notification) × (read id w.inbox ≡ some (parsed n))
      × (acknowledge_user_notification w' id actor' now' ≡ ok (w', a, true))
      × (contains n.event events ≡ true
          → require_acknowledged_user_notification w' id n.event ≡ ok n)
unfolding acknowledge_user_notification
acknowledged_once w w' id actor now actor' now' a reused e filled =
    let (safe, e1) = >>-eq-ok (check_id id) _ e in
    let (_, e2) = raise_if->>-eq-ok (is_blank actor) _ _ e1 in
    let (n, stored, e3) = >>=-eq-ok (read_json (read id w.inbox)) _ e2 in
    let (own, e4) = raise_if->>-eq-ok (not (has_id n.notification_id id)) _ _ e3 in
    let (o, looked, e5) = >>=-eq-ok (acknowledgement w id) _ e4 in
    let (known, kept) =
      subst-ok
        (λ (x : Workspace × Acknowledgement × Bool).
          (acknowledgement x.0 id ≡ ok (some x.1)) × (x.0.inbox ≡ w.inbox))
        e5 (acknowledged_file w id actor now o looked) in
    let was = read_json-eq-ok (read id w.inbox) n stored in
    let is_there : read id w'.inbox ≡ some (parsed n) =
      subst (λ m. read id m ≡ some (parsed n)) (sym kept) was in
    (
      n,
      was,
      again_lem w' id actor' now' n a safe filled is_there own known,
      λ event. required_lem w' id n a safe is_there own known event,
    )

abbrev is_unacknowledged : Notification × Option Acknowledgement → Bool
is_unacknowledged x = not (is_some x.1)

listed_open :
    (n : Notification) (a : Option Acknowledgement)
    (ys : List (Notification × Option Acknowledgement))
    → (if is_listed false a
        then (n, a) ∷ select is_unacknowledged ys
        else select is_unacknowledged ys)
      ≡ select is_unacknowledged (if is_listed true a then (n, a) ∷ ys else ys)
unfolding is_listed
listed_open n none ys = refl
listed_open n (some a) ys = refl

list_one-open :
    (w : Workspace) (n : Notification) (o : Option String)
    (rest rest' : Result NotificationError (List (Notification × Option Acknowledgement)))
    → ((ys : List (Notification × Option Acknowledgement))
        → rest ≡ ok ys
        → rest' ≡ ok (select is_unacknowledged ys))
    → (xs : List (Notification × Option Acknowledgement)) → list_one w true n o rest ≡ ok xs
    → list_one w false n o rest' ≡ ok (select is_unacknowledged xs)
unfolding list_one
list_one-open w n none rest rest' h xs e = h xs e
list_one-open w n (some id) rest rest' h xs e =
    let (a, known, e1) = >>=-eq-ok (acknowledgement w id) _ e in
    let (ys, later, e2) = >>=-eq-ok rest _ e1 in
    rw (known, h ys later, listed_open n a ys)
      (subst-ok
        (λ (zs : List (Notification × Option Acknowledgement)).
          ◌≡◌ {A = Result NotificationError (List (Notification × Option Acknowledgement))}
            (ok (select is_unacknowledged (if is_listed true a then (n, a) ∷ ys else ys)))
            (ok (select is_unacknowledged zs)))
        e2 refl)

list_from-open :
    (w : Workspace) (files : Directory (File Notification))
    (xs : List (Notification × Option Acknowledgement))
    → list_from w true files ≡ ok xs
    → list_from w false files ≡ ok (select is_unacknowledged xs)
unfolding list_from
list_from-open w [] xs e =
    subst-ok
      (λ (zs : List (Notification × Option Acknowledgement)).
        ◌≡◌ {A = Result NotificationError (List (Notification × Option Acknowledgement))} (ok [])
          (ok (select is_unacknowledged zs)))
      e refl
list_from-open w ((k, unreadable) ∷ files) xs e = absurd (cc)
list_from-open w ((k, parsed n) ∷ files) xs e =
    list_one-open w n n.notification_id (list_from w true files) (list_from w false files)
      (list_from-open w files) xs e

-- Where every file can be read, the list of the open notifications is the full list, in its order,
-- without those that have an acknowledgement.
pub open_notifications :
    (w : Workspace) (xs : List (Notification × Option Acknowledgement))
    → list_user_notifications w true ≡ ok xs
    → list_user_notifications w false ≡ ok (select is_unacknowledged xs)
unfolding list_user_notifications
open_notifications w xs e = list_from-open w w.inbox xs e
