-- ===== src/Notifications/Dismissals.antt =====
-- What dismissing notifications removes and what it leaves: notification_store.py.
use mathlib.Core.Path.{subst}
use circled_wiki.Base.{
  file_names, String, ◌==◌, ◌≡◌, ◌≢◌, ◌↔◌, refl, sym, ap, true, not, ◌||◌, none, some, List, [],
  ◌∷◌, inl, inr, Bool-cases, Option-cases, arith, is_blank, contains, if◌then◌else◌, Directory,
  File, parsed, unreadable, read, remove, read-remove, eq_iff, eq_refl, Result, ok, err, ◌>>=◌,
  >>=-eq-ok, >>-eq-ok, subst-ok, raise_if->>-eq-ok, or_raise->>=-eq-ok,
}
use circled_wiki.Notifications.Model.{Notification, Workspace, NotificationError}
use circled_wiki.Notifications.Operations.{
  check_id, read_json, require_acknowledged_user_notification,
}
use circled_wiki.Notifications.Resolution.{
  remove_records, dismiss_user_notification, Dismissed, also_dismissed, id_of, dismiss_read,
  dismiss_files, dismiss_notifications_for_resource,
}
use circled_wiki.Notifications.Operations.{events}
use circled_wiki.Notifications.Model.{unsupported_event}
use circled_wiki.Notifications.Answers.{read_json-eq-ok}

unrequired :
    (w : Workspace) (id event : String) (n : Notification)
    → read id w.inbox ≡ none
    → require_acknowledged_user_notification w id event ≢ ok n
unfolding require_acknowledged_user_notification read_json
unrequired w id event n gone e =
    let (_, e1) = raise_if->>-eq-ok (not (contains event events)) unsupported_event _ e in
    let (_, e2) = >>-eq-ok (check_id id) _ e1 in
    let (m, stored, _) = >>=-eq-ok (read_json (read id w.inbox)) _ e2 in
    absurd (cc (gone, read_json-eq-ok (read id w.inbox) m stored))

-- Dismissing removes the notification and its acknowledgement, and no other file: what any id reads
-- afterwards is nothing for the dismissed one and what it read before for the others. No action that
-- needs the notification acknowledged goes through any more.
pub dismissed_is_gone :
    (w w' : Workspace) (id reason why : String) (n : Notification)
    → dismiss_user_notification w id reason ≡ ok (w', n, why)
    → (read id w.inbox ≡ some (parsed n))
      × ((j : String)
          → (read j w'.inbox ≡ (if id == j then none else read j w.inbox))
            × (read j w'.acknowledgements ≡ (if id == j then none else read j w.acknowledgements)))
      × ((event : String) (x : Notification)
          → require_acknowledged_user_notification w' id event ≢ ok x)
unfolding dismiss_user_notification
dismissed_is_gone w w' id reason why n e =
    let (safe, e1) = >>-eq-ok (check_id id) _ e in
    let (_, e2) = raise_if->>-eq-ok (is_blank reason) _ _ e1 in
    let (m, stored, e3) = >>=-eq-ok (read_json (read id w.inbox)) _ e2 in
    subst-ok
      (λ (x : Workspace × Notification × String).
        (read id w.inbox ≡ some (parsed x.1))
        × ((j : String)
            → (read j x.0.inbox ≡ (if id == j then none else read j w.inbox))
              × (read j x.0.acknowledgements
                  ≡ (if id == j then none else read j w.acknowledgements)))
        × ((event : String) (y : Notification)
            → require_acknowledged_user_notification x.0 id event ≢ ok y))
      e3
      (
        read_json-eq-ok (read id w.inbox) m stored,
        λ j. (
          unfold remove_records in read-remove id j w.inbox,
          unfold remove_records in read-remove id j w.acknowledgements,
        ),
        λ event y.
            unrequired (remove_records w id) id event y
              (unfold remove_records in ground (arith, read-remove id id w.inbox, eq_refl id)),
      )

abbrev pub Filed : Directory (File Notification) → Type 0
Filed m = (k : String) (n : Notification) → read k m ≡ some (parsed n) → n.notification_id ≡ some k

-- What is in the second directory is in the first.
abbrev Within : Directory (File Notification) → Directory (File Notification) → Type 0
Within m m' = (k : String) (f : File Notification) → read k m ≡ some f → read k m' ≡ some f

removed-Within : (id : String) (m : Directory (File Notification)) → Within (remove id m) m
removed-Within id m k f h = ground (arith, read-remove id k m, h)

-- A turn of the loop that dismisses record `k`, inverted.
dismissed_turn :
    (w w' : Workspace) (r : Result NotificationError (Workspace × Notification × String))
    (rest : Workspace → Dismissed) (ds : List (Notification × String))
    → also_dismissed w r rest ≡ (w', ok ds)
    → (w1 : Workspace) × (n : Notification) × (why : String) × (later : List
        (Notification × String))
      × (r ≡ ok (w1, n, why))
      × (rest w1 ≡ (w', ok later))
unfolding also_dismissed
dismissed_turn w w' (err e) rest ds h = absurd (cc)
dismissed_turn w w' (ok (w1, n, why)) rest ds h =
    let (later, e, _) = >>=-eq-ok (rest w1).1 _ (ap (λ (x : Dismissed). x.1) h) in
    let left : (rest w1).0 ≡ w' = ap (λ (x : Dismissed). x.0) h in
    (w1, n, why, later, refl, λ i. (left i, e i))

-- Where a resource's records are dismissed without an error, the records of the listed files are of
-- other resources, and the records of other resources are left.
abbrev Cleared :
    String → List String → Directory (File Notification) → Directory (File Notification) → Type 0
Cleared ref ks m m' =
    ((k : String) (n : Notification)
      → contains k ks ≡ true
      → read k m' ≡ some (parsed n)
      → n.resource_ref ≢ ref)
    × ((k : String) (n : Notification)
        → read k m ≡ some (parsed n)
        → n.resource_ref ≢ ref
        → read k m' ≡ some (parsed n))
    × Within m' m

dismissed_lem :
    (w w1 : Workspace) (n m : Notification) (k reason why : String)
    → Filed w.inbox
    → read k w.inbox ≡ some (parsed n)
    → (id_of n >>= λ id. dismiss_user_notification w id reason) ≡ ok (w1, m, why)
    → w1.inbox ≡ remove k w.inbox
unfolding id_of dismiss_user_notification remove_records
dismissed_lem w w1 n m k reason why filed was e =
    let (id, named, e1) = or_raise->>=-eq-ok n.notification_id _ _ e in
    let (_, e2) = >>-eq-ok (check_id id) _ e1 in
    let (_, e3) = raise_if->>-eq-ok (is_blank reason) _ _ e2 in
    let (_, _, e4) = >>=-eq-ok (read_json (read id w.inbox)) _ e3 in
    let own : id ≡ k = cc (named, filed k n was) in
    subst-ok (λ (x : Workspace × Notification × String). x.0.inbox ≡ remove k w.inbox) e4
      (rw own refl)

Filed-Within : (m m' : Directory (File Notification)) → Within m' m → Filed m → Filed m'
Filed-Within m m' sub filed k n h = filed k n (sub k (parsed n) h)

Cleared-skip :
    (ref k : String) (ks : List String) (m m' : Directory (File Notification)) (n : Notification)
    → read k m ≡ some (parsed n)
    → n.resource_ref ≢ ref
    → Cleared ref ks m m'
    → Cleared ref (k ∷ ks) m m'
unfolding contains
Cleared-skip ref k ks m m' n was other h = (
  λ j x listed left. elim (Bool-cases (j == k)) [
    | inl same ↦ λ e.
        let named : j ≡ k = ground (arith, eq_iff j k, same) in
        let before = h.2 j (parsed x) left in
        let whole : parsed x ≡ parsed n = cc (ap (λ i. read i m) named, before, was) in
        other (cc (whole, e))
    | inr away ↦ h.0 j x (rw away at listed) left
  ],
  h.1,
  h.2,
)

Cleared-dismiss :
    (ref k : String) (ks : List String) (m m' : Directory (File Notification)) (n : Notification)
    → read k m ≡ some (parsed n)
    → n.resource_ref ≡ ref
    → Cleared ref ks (remove k m) m'
    → Cleared ref (k ∷ ks) m m'
unfolding contains
Cleared-dismiss ref k ks m m' n was own h = (
  λ j x listed left. elim (Bool-cases (j == k)) [
    | inl same ↦
        let named : j ≡ k = ground (arith, eq_iff j k, same) in
        let gone : read k (remove k m) ≡ none = ground (arith, read-remove k k m, eq_refl k) in
        absurd (cc (ap (λ i. read i (remove k m)) named, gone, h.2 j (parsed x) left))
    | inr away ↦ h.0 j x (rw away at listed) left
  ],
  λ j x there other. elim (Bool-cases (k == j)) [
    | inl same ↦
        let named : k ≡ j = ground (arith, eq_iff k j, same) in
        let whole : parsed x ≡ parsed n = cc (ap (λ i. read i m) named, there, was) in
        absurd (other (cc (whole, own)))
    | inr away ↦ h.1 j x (rw (read-remove k j m) (rw away there)) other
  ],
  λ j f left. removed-Within k m j f (h.2 j f left),
)

Cleared-start : (ref : String) (m : Directory (File Notification)) → Cleared ref [] m m
unfolding contains
Cleared-start ref m = (λ k n listed left. absurd (cc), λ k n was other. was, λ k f was. was)

named_by : (n : Notification) (ref : String) → (n.resource_ref == ref) ≡ true → n.resource_ref ≡ ref
named_by n ref h = ground (arith, eq_iff n.resource_ref ref)

dismiss_files-Cleared :
    (ks : List String) (ref reason : String) (w w' : Workspace) (ds : List (Notification × String))
    → Filed w.inbox
    → dismiss_files ks ref reason w ≡ (w', ok ds)
    → Cleared ref ks w.inbox w'.inbox
unfolding dismiss_files dismiss_read read_json
dismiss_files-Cleared [] ref reason w w' ds filed e =
    subst (λ (v : Workspace). Cleared ref [] w.inbox v.inbox) (ap (λ (x : Dismissed). x.0) e)
      (Cleared-start ref w.inbox)
dismiss_files-Cleared (k ∷ ks) ref reason w w' ds filed e = elim (Option-cases (read k w.inbox)) [
  | inl missing ↦ absurd (cc (rw (dismiss_files, missing) at e))
  | inr (unreadable, was) ↦ absurd (cc (rw (dismiss_files, was) at e))
  | inr (parsed n, was) ↦ elim (Bool-cases (n.resource_ref == ref)) [
    | inl own ↦
        let (w1, m, why, later, gone, e1) =
          dismissed_turn w w' _ _ ds (rw (dismiss_files, was, own) at e) in
        let named : n.resource_ref ≡ ref = named_by n ref own in
        let left = dismissed_lem w w1 n m k reason why filed was gone in
        let filed1 = Filed-Within w.inbox (remove k w.inbox) (removed-Within k w.inbox) filed in
        Cleared-dismiss ref k ks w.inbox w'.inbox n was named (
          subst (λ v. Cleared ref ks v w'.inbox) left
            (dismiss_files-Cleared ks ref reason w1 w' later (subst Filed (sym left) filed1) e1))
    | inr other ↦
        Cleared-skip ref k ks w.inbox w'.inbox n was
          (λ same. ground (arith, eq_iff n.resource_ref ref, same, other))
          (dismiss_files-Cleared ks ref reason w w' ds filed (rw (dismiss_files, was, other) at e))
  ]
]

listed_name :
    (k : String) (f : File Notification) (m : Directory (File Notification))
    → read k m ≡ some f
    → contains k (file_names m) ≡ true
unfolding read contains file_names
listed_name k f [] e = absurd (cc)
listed_name k f ((j, g) ∷ m) e = elim (Bool-cases (j == k)) [
  | inl same ↦ ground (arith, eq_iff j k, eq_iff k j)
  | inr other ↦ ground (arith, listed_name k f m (rw other at e))
]

-- In an inbox whose records are filed under their own ids, a dismissal for a resource that ends
-- without an error leaves exactly the records of the other resources.
pub dismissed_resource :
    (w w' : Workspace) (ref reason : String) (ds : List (Notification × String))
    → Filed w.inbox
    → dismiss_notifications_for_resource w ref reason ≡ (w', ok ds)
    → (k : String) (n : Notification)
    → (read k w'.inbox ≡ some (parsed n))
      ↔ ((read k w.inbox ≡ some (parsed n)) × (n.resource_ref ≢ ref))
unfolding dismiss_notifications_for_resource
dismissed_resource w w' ref reason ds filed e k n =
    elim (Bool-cases (is_blank ref || is_blank reason)) [
      | inl blank ↦ absurd (cc (ap (λ (x : Dismissed). x.1) (rw blank at e)))
      | inr filled ↦
          let h =
            dismiss_files-Cleared (file_names w.inbox) ref reason w w' ds filed (rw filled at e) in
          (
            λ left.
                let was = h.2 k (parsed n) left in
                (was, h.0 k n (listed_name k (parsed n) w.inbox was) left),
            λ x. h.1 k n x.0 x.1,
          )
    ]
