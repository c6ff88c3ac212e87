-- ===== src/Notifications/Records.antt =====
-- What the notification operations leave behind: notification_store.py.
use mathlib.Core.Path.{subst}
use circled_wiki.Base.{
  read-write, read, Everywhere, Everywhere-write, String, ◌==◌, ◌≡◌, ◌≢◌, refl, sym, ◌∙◌, read,
  read-write, Bool, true, false, Option, none, some, [], ◌∷◌, inl, inr, Bool-cases, arith, strip,
  strip-strip, Directory, File, parsed, unreadable, write, eq_iff, eq_refl, ok, >>=-eq-ok, >>-eq-ok,
  subst-ok,
}
use Prim.Native.String.{compare}
use text.Mathlib.Text.{is_lt}
use circled_wiki.Notifications.Model.{Notification, Workspace, Request}
use circled_wiki.Notifications.Operations.{
  validate_fields, find_duplicate, notification_name, new_notification, put_notification,
  record_user_notification,
}

-- Some file holds a notification with this key, and the files before it parse.
abbrev HasDuplicate : String → Directory (File Notification) → Type 0
HasDuplicate key m = (n : Notification) × (find_duplicate key m ≡ ok (some n))

-- Behind files that parse and hold other keys, a new file with the key is found.
find_duplicate-write :
    (key k : String) (n : Notification) (m : Directory (File Notification))
    → n.dedupe_key ≡ key
    → find_duplicate key m ≡ ok none
    → find_duplicate key (write k (parsed n) m) ≡ ok (some n)
unfolding find_duplicate write
find_duplicate-write key k n [] same none_yet = simp (same, eq_refl)
find_duplicate-write key k n ((j, unreadable) ∷ m) same none_yet = absurd (cc)
find_duplicate-write key k n ((j, parsed x) ∷ m) same none_yet =
    elim (Bool-cases (x.dedupe_key == key)) [
      | inl found ↦ absurd (cc (rw found at none_yet))
      | inr other ↦ elim (Bool-cases (j == k)) [
        | inl here ↦ rw here (simp (same, eq_refl))
        | inr away ↦ elim (Bool-cases (is_lt (compare k j))) [
          | inl before ↦ rw (away, before) (simp (same, eq_refl))
          | inr after ↦
              rw (away, after)
                (rw other (find_duplicate-write key k n m same (rw other at none_yet)))
        ]
      ]
    ]

-- What is left behind when a notification with the request's key is there already.
reuse_lem :
    (w : Workspace) (r : Request) (uuid now : String) (n : Notification)
    → validate_fields r ≡ ok tt
    → find_duplicate r.dedupe_key w.inbox ≡ ok (some n)
    → record_user_notification w r uuid now ≡ ok (w, n, true)
unfolding record_user_notification
reuse_lem w r uuid now n valid found = simp (valid, found)

recorded_duplicate :
    (w : Workspace) (r : Request) (uuid now : String) (o : Option Notification)
    → strip r.dedupe_key ≡ r.dedupe_key
    → find_duplicate r.dedupe_key w.inbox ≡ ok o
    → let x = put_notification w r uuid now o in
      find_duplicate r.dedupe_key x.0.inbox ≡ ok (some x.1)
unfolding put_notification
recorded_duplicate w r uuid now none stripped e =
    find_duplicate-write r.dedupe_key (notification_name uuid) (new_notification r uuid now) w.inbox
      (unfold new_notification in stripped) e
recorded_duplicate w r uuid now (some n) stripped e = e

-- A notification whose key is given without outer white space is recorded once: the next request with
-- that key, whatever else it says, changes no file and returns the first notification as reused.
pub record_user_notification_reuses :
    (w w' : Workspace) (r r' : Request) (uuid uuid' now now' : String) (n : Notification)
    (reused : Bool)
    → strip r.dedupe_key ≡ r.dedupe_key
    → record_user_notification w r uuid now ≡ ok (w', n, reused)
    → r'.dedupe_key ≡ r.dedupe_key
    → validate_fields r' ≡ ok tt
    → record_user_notification w' r' uuid' now' ≡ ok (w', n, true)
unfolding record_user_notification
record_user_notification_reuses w w' r r' uuid uuid' now now' n reused stripped e same valid =
    let (_, e1) = >>-eq-ok (validate_fields r) _ e in
    let (o, looked, e2) = >>=-eq-ok (find_duplicate r.dedupe_key w.inbox) _ e1 in
    let found : find_duplicate r.dedupe_key w'.inbox ≡ ok (some n) =
      subst-ok
        (λ (x : Workspace × Notification × Bool).
          find_duplicate r.dedupe_key x.0.inbox ≡ ok (some x.1))
        e2 (recorded_duplicate w r uuid now o stripped looked) in
    reuse_lem w' r' uuid' now' n valid
      (subst (λ k. find_duplicate k w'.inbox ≡ ok (some n)) (sym same) found)

-- No stored key is the text `key`.
abbrev Stripped : Notification → Type 0
Stripped n = strip n.dedupe_key ≡ n.dedupe_key

never_found :
    (key : String) (m : Directory (File Notification)) (o : Option Notification)
    → strip key ≢ key
    → Everywhere Stripped m
    → find_duplicate key m ≡ ok o
    → o ≡ none
unfolding find_duplicate
never_found key [] o spaced h e = subst-ok (λ (x : Option Notification). x ≡ none) e refl
never_found key ((j, unreadable) ∷ m) o spaced h e = absurd (cc)
never_found key ((j, parsed x) ∷ m) o spaced h e = elim (Bool-cases (x.dedupe_key == key)) [
  | inl found ↦
      let same : x.dedupe_key ≡ key = ground (arith, eq_iff x.dedupe_key key, found) in
      absurd (spaced (subst (λ k. strip k ≡ k) same h.0))
  | inr other ↦ never_found key m o spaced h.1 (rw other at e)
]

put-Stripped :
    (w : Workspace) (r : Request) (uuid now : String) (o : Option Notification)
    → Everywhere Stripped w.inbox
    → Everywhere Stripped (put_notification w r uuid now o).0.inbox
unfolding put_notification
put-Stripped w r uuid now none h =
    Everywhere-write Stripped (notification_name uuid) (parsed (new_notification r uuid now))
      w.inbox h (unfold new_notification in strip-strip r.dedupe_key)
put-Stripped w r uuid now (some n) h = h

-- The new file of a request that found no duplicate: it is read back, and the others are as before.
abbrev pub IsAdded : Workspace → Workspace → String → Notification → Type 0
IsAdded w w' name n =
    (read name w'.inbox ≡ some (parsed n))
    × ((k : String) → name ≢ k → read k w'.inbox ≡ read k w.inbox)

put_notification-IsAdded :
    (w : Workspace) (r : Request) (uuid now : String)
    → let x = put_notification w r uuid now none in IsAdded w x.0 (notification_name uuid) x.1
unfolding put_notification
put_notification-IsAdded w r uuid now =
    let name = notification_name uuid in
    let n = new_notification r uuid now in
    (
      read-write name name (parsed n) w.inbox ∙ (rw (eq_refl name) refl),
      λ k other. read-write name k (parsed n) w.inbox ∙ (elim (Bool-cases (name == k)) [
        | inl same ↦ absurd (other (ground (arith, eq_iff name k, same)))
        | inr away ↦ rw away refl
      ]),
    )

-- Where the stored keys have no outer white space, a request whose key has some is never answered
-- with a notification that is there: under a UUID that is not in use it adds the file of a new
-- notification, with the stripped key and not marked as reused, and changes no other file. The
-- stored keys then still have no outer white space, so the same request adds another file each
-- time.
pub spaced_key_is_not_reused :
    (w w' : Workspace) (r : Request) (uuid now : String) (n : Notification) (reused : Bool)
    → Everywhere Stripped w.inbox
    → strip r.dedupe_key ≢ r.dedupe_key
    → read (notification_name uuid) w.inbox ≡ none
    → record_user_notification w r uuid now ≡ ok (w', n, reused)
    → (reused ≡ false)
      × (n.dedupe_key ≡ strip r.dedupe_key)
      × IsAdded w w' (notification_name uuid) n
      × Everywhere Stripped w'.inbox
unfolding record_user_notification
spaced_key_is_not_reused w w' r uuid now n reused h spaced fresh e =
    let (_, e1) = >>-eq-ok (validate_fields r) _ e in
    let (o, looked, e2) = >>=-eq-ok (find_duplicate r.dedupe_key w.inbox) _ e1 in
    let missing = never_found r.dedupe_key w.inbox o spaced h looked in
    subst-ok
      (λ (x : Workspace × Notification × Bool).
        (x.2 ≡ false)
        × (x.1.dedupe_key ≡ strip r.dedupe_key)
        × IsAdded w x.0 (notification_name uuid) x.1
        × Everywhere Stripped x.0.inbox)
      (rw missing at e2)
      (
        unfold put_notification in refl,
        unfold put_notification in unfold new_notification in refl,
        put_notification-IsAdded w r uuid now,
        put-Stripped w r uuid now none h,
      )
