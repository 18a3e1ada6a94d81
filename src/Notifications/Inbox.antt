-- ===== src/Notifications/Inbox.antt =====
-- However often an event is delivered, it becomes at most one notification.
use aca_social.Base.{
  ℕ, ◌≡◌, refl, Bool, true, false, Option, none, some, if-true, ap, sym, ◌∙◌, List, [], ◌∷◌, ◌++◌,
  arith, String, includes, if◌then◌else◌,
}
use aca_social.Notifications.{
  Field, DomainEvent, Notification, Tables, Directory, Outcome, Actor, notified, ignored, invalid,
  or_field, is_valid, notification_of, resolve_actor, resolve_comment, is_comment, optional_string,
  actor_of, claim, process_new, process_valid, process_identified, process_event,
}

-- A delivery, with what the identity service answers at that time.
abbrev pub Delivery : Type 0
Delivery = Directory × DomainEvent

unfoldable pub deliver : List Delivery → Tables → Tables
deliver [] db = db
deliver ((directory, e) ∷ ds) db = deliver ds (process_event directory e db).1

-- A run that notifies claims the event, which nobody had claimed, and adds the notification; any
-- other run, a failed one too, changes nothing.
abbrev pub Claims : Directory → DomainEvent → Tables → Outcome → Tables → Type 0
Claims directory e db (notified n) db' =
    (id : ℕ) × (recipient : String) × (a : Actor) × (e.event_id ≡ some id)
    × (includes db.inbox_events id ≡ false)
    × (or_field e.recipient_id e.receiver_id ≡ Field.text recipient)
    × (resolve_actor directory e ≡ some a)
    × (n ≡ notification_of e recipient a)
    × (db' ≡ record {
      inbox_events = id ∷ db.inbox_events;
      notifications = db.notifications ++ n ∷ [];
    })
Claims directory e db _ db' = db' ≡ db

abbrev ClaimsRun : Directory → DomainEvent → Tables → Outcome × Tables → Type 0
ClaimsRun directory e db (o, db') = Claims directory e db o db'

-- A claim of an event that nobody claimed.
claim_new :
    (id : ℕ) (n : Notification) (db : Tables) (P : Outcome × Tables → Type 0)
    → includes db.inbox_events id ≡ false
    → P (
      notified n,
      record { inbox_events = id ∷ db.inbox_events; notifications = db.notifications ++ n ∷ [] },
    )
    → P (claim id n db)
unfolding claim
claim_new id n db P new h = rw new h

process_new-Claims :
    (directory : Directory) (e : DomainEvent) (id : ℕ) (recipient : String) (db : Tables)
    → e.event_id ≡ some id
    → includes db.inbox_events id ≡ false
    → or_field e.recipient_id e.receiver_id ≡ Field.text recipient
    → ClaimsRun directory e db (process_new directory e id recipient db)
unfolding process_new claim
process_new-Claims directory e id recipient db is new sent =
    resolved (resolve_actor directory e) refl
  where
    resolved :
        (o : Option Actor)
        → resolve_actor directory e ≡ o
        → ClaimsRun directory e db (elim o [
          | none ↦ (Outcome.failed, db)
          | some a ↦ claim id (notification_of e recipient a) db
        ])
    resolved none r = refl
    resolved (some a) r =
        claim_new id (notification_of e recipient a) db (ClaimsRun directory e db) new
          (id, recipient, a, is, new, sent, r, refl, refl)

process_valid-Claims :
    (directory : Directory) (e : DomainEvent) (id : ℕ) (f : Field) (db : Tables)
    → e.event_id ≡ some id
    → or_field e.recipient_id e.receiver_id ≡ f
    → ClaimsRun directory e db (process_valid directory e id f db)
unfolding process_valid
process_valid-Claims directory e id Field.missing db is sent = refl
process_valid-Claims directory e id Field.other db is sent = refl
process_valid-Claims directory e id (Field.text recipient) db is sent =
    claimed (includes db.inbox_events id) refl
  where
    claimed :
        (b : Bool)
        → includes db.inbox_events id ≡ b
        → ClaimsRun directory e db
            (if b then (ignored, db) else process_new directory e id recipient db)
    claimed true seen = refl
    claimed false new = process_new-Claims directory e id recipient db is new sent

process_event-Claims :
    (directory : Directory) (e : DomainEvent) (db : Tables)
    → ClaimsRun directory e db (process_event directory e db)
unfolding process_event process_identified
process_event-Claims directory e db = valid (is_valid e) (e.event_id) refl
  where
    valid :
        (b : Bool) (id : Option ℕ)
        → e.event_id ≡ id
        → ClaimsRun directory e db
            (if b then process_identified directory e id db else (invalid, db))
    valid false id is = refl
    valid true none is = refl
    valid true (some id) is = process_valid-Claims directory e id _ db is refl

-- An event that is claimed stays claimed, and its delivery changes nothing.
seen_unchanged :
    (directory : Directory) (e : DomainEvent) (id : ℕ) (db : Tables) (o : Outcome) (db' : Tables)
    → e.event_id ≡ some id
    → includes db.inbox_events id ≡ true
    → Claims directory e db o db'
    → db' ≡ db
seen_unchanged directory e id db (notified n) db' is seen (id', _, _, is', new, _, _, _, _) =
    absurd (ground arith)
seen_unchanged directory e id db invalid db' is seen h = h
seen_unchanged directory e id db ignored db' is seen h = h
seen_unchanged directory e id db Outcome.failed db' is seen h = h

includes-Claims :
    (directory : Directory) (e : DomainEvent) (id : ℕ) (db : Tables) (o : Outcome) (db' : Tables)
    → includes db.inbox_events id ≡ true
    → Claims directory e db o db'
    → includes db'.inbox_events id ≡ true
includes-Claims directory e id db (notified n) db' seen (_, _, _, _, _, _, _, _, same) =
    ground arith
includes-Claims directory e id db invalid db' seen h = ground arith
includes-Claims directory e id db ignored db' seen h = ground arith
includes-Claims directory e id db Outcome.failed db' seen h = ground arith

includes-deliver :
    (id : ℕ) (ds : List Delivery) (db : Tables)
    → includes db.inbox_events id ≡ true
    → includes (deliver ds db).inbox_events id ≡ true
unfolding deliver
includes-deliver id [] db seen = seen
includes-deliver id ((directory, e) ∷ ds) db seen =
    includes-deliver id ds _
      (includes-Claims directory e id db _ _ seen (process_event-Claims directory e db))

claimed_id :
    (directory : Directory) (e : DomainEvent) (db : Tables) (n : Notification) (o : Outcome)
    (db' : Tables)
    → o ≡ notified n
    → Claims directory e db o db'
    → (id : ℕ) × (e.event_id ≡ some id) × (includes db'.inbox_events id ≡ true)
claimed_id directory e db n (notified n') db' is (id, _, _, has_id, _, _, _, _, same) =
    (id, has_id, ground arith)
claimed_id directory e db n invalid db' is h = absurd (cc)
claimed_id directory e db n ignored db' is h = absurd (cc)
claimed_id directory e db n Outcome.failed db' is h = absurd (cc)

-- Once an event was turned into a notification, delivering it again, whatever else was delivered in
-- between, adds no notification and changes nothing else.
pub process_event_once :
    (directory later : Directory) (e : DomainEvent) (db : Tables) (n : Notification)
    (ds : List Delivery)
    → (process_event directory e db).0 ≡ notified n
    → let db' = deliver ds (process_event directory e db).1 in (process_event later e db').1 ≡ db'
process_event_once directory later e db n ds is =
    let (id, has_id, seen) =
      claimed_id directory e db n _ _ is (process_event-Claims directory e db) in
    seen_unchanged later e id _ _ _ has_id (includes-deliver id ds _ seen)
      (process_event-Claims later e _)

-- What the run of a delivery is allowed to add: one notification for the recipient of the event.
abbrev pub Adds : DomainEvent → Tables → Outcome → Tables → Type 0
Adds e db (notified n) db' =
    (db'.notifications ≡ db.notifications ++ n ∷ [])
    × (or_field e.recipient_id e.receiver_id ≡ Field.text n.recipient_id)
    × (is_comment e.event_type ≡ true → e.is_anonymous ≡ some true → n.actor_id ≡ none)
    × (is_comment e.event_type ≡ true → e.is_anonymous ≡ some true → n.actor_name ≡ Field.missing)
Adds e db _ db' = db' ≡ db

anonymous :
    (directory : Directory) (e : DomainEvent) (a : Actor)
    → resolve_actor directory e ≡ some a
    → is_comment e.event_type ≡ true
    → e.is_anonymous ≡ some true
    → a ≡ record { actor_id = Field.missing; sender_id = Field.missing; actor_name = Field.missing }
unfolding resolve_actor resolve_comment
anonymous directory e a r comment hidden =
    let nobody : Actor = record {
      actor_id = Field.missing;
      sender_id = Field.missing;
      actor_name = Field.missing;
    } in
    let resolved : resolve_actor directory e ≡ some nobody =
      if-true (is_comment e.event_type) (resolve_comment directory e.is_anonymous (actor_of e))
        (some (actor_of e)) comment
      ∙ ap (λ b. resolve_comment directory b (actor_of e)) hidden in
    cc

Claims-Adds :
    (directory : Directory) (e : DomainEvent) (db : Tables) (o : Outcome) (db' : Tables)
    → Claims directory e db o db'
    → Adds e db o db'
Claims-Adds directory e db (notified n) db' (id, recipient, a, has_id, new, sent, r, is, same) = (
  ap (λ d. d.notifications) same,
  sent ∙ ap (λ m. Field.text m.recipient_id) (sym is),
  (λ comment hidden.
      ap (λ m. m.actor_id) is
      ∙ ap (λ x. optional_string (or_field x.actor_id x.sender_id))
          (anonymous directory e a r comment hidden)),
  (λ comment hidden.
      ap (λ m. m.actor_name) is
      ∙ ap (λ x. x.actor_name) (anonymous directory e a r comment hidden)),
)
Claims-Adds directory e db invalid db' h = h
Claims-Adds directory e db ignored db' h = h
Claims-Adds directory e db Outcome.failed db' h = h

-- A delivery that notifies adds one notification, for the recipient that the event names, and that
-- of an anonymous comment names no actor. Any other delivery, a failed one too, changes nothing, so
-- that it can be made again.
pub process_event-Adds :
    (directory : Directory) (e : DomainEvent) (db : Tables)
    → let (o, db') = process_event directory e db in Adds e db o db'
process_event-Adds directory e db =
    Claims-Adds directory e db _ _ (process_event-Claims directory e db)
