-- ===== src/Notifications.antt =====
-- services/notification-service/src/notifications: an event becomes a notification once
-- (notifications.service.ts, domain-event.ts).
pub mod Inbox
pub mod Consumer
use aca_social.Base.{
  ℕ, Bool, true, false, not, ◌&&◌, ◌||◌, Option, none, some, List, [], ◌∷◌, ◌++◌, String, str_eq,
  is_some, includes, if◌then◌else◌,
}
use aca_social.Moderation.{trim, is_empty}

-- A field of the payload, which is JSON: null or not there, a text, or something else.
pub data Field : Type 0 where
  missing other : Field
  text : String → Field

-- An event as it is received. `event_id` is none if the identifier is no text or blank, and
-- `has_data` tells whether the payload is an object.
pub record DomainEvent : Type 0 where
  pub event_id : Option ℕ
  pub event_type : Field
  pub has_data : Bool
  pub recipient_id : Field
  pub receiver_id : Field
  pub actor_id : Field
  pub sender_id : Field
  pub actor_name : Field
  pub is_anonymous : Option Bool

pub record Notification : Type 0 where
  pub recipient_id : String
  pub actor_id : Option String
  pub actor_name : Field
  pub notification_type : String

-- The tables `inbox_events` and `notifications`.
pub record Tables : Type 0 where
  pub inbox_events : List ℕ
  pub notifications : List Notification

-- `a ?? b`
abbrev pub or_field : Field → Field → Field
or_field Field.missing b = b
or_field a b = a

abbrev pub is_blank : String → Bool
is_blank s = is_empty (trim s)

abbrev pub has_text : Field → Bool
has_text (Field.text s) = not (is_blank s)
has_text _ = false

-- `recipient != null && (typeof recipient !== 'string' || !recipient.trim())`
abbrev pub is_wrong_recipient : Field → Bool
is_wrong_recipient Field.missing = false
is_wrong_recipient f = not (has_text f)

-- `validateDomainEvent`
abbrev pub is_valid : DomainEvent → Bool
is_valid e =
    (is_some e.event_id && (has_text e.event_type && e.has_data))
    && not (is_wrong_recipient (or_field e.recipient_id e.receiver_id))

-- What the identity service answers for an actor: no answer or a failure, status 404, or a profile
-- with its name.
pub data Display : Type 0 where
  failed gone : Display
  profile : Field → Display

abbrev pub Directory : Type 0
Directory = String → Display

pub data Outcome : Type 0 where
  invalid failed ignored : Outcome
  notified : Notification → Outcome

-- The fields of the payload that say who acted.
pub record Actor : Type 0 where
  pub actor_id : Field
  pub sender_id : Field
  pub actor_name : Field

abbrev pub actor_of : DomainEvent → Actor
actor_of e = record { actor_id = e.actor_id; sender_id = e.sender_id; actor_name = e.actor_name }

-- The name that the profile gives, or none when the lookup throws.
abbrev pub named_by : Display → Option Field
named_by Display.failed = none
named_by Display.gone = some (Field.text "Người dùng đã xóa tài khoản")
named_by (Display.profile f) = if has_text f then some f else none

abbrev pub with_name : Option Field → Actor → Option Actor
with_name none a = none
with_name (some name) a = some (record a { actor_name = name })

abbrev pub resolve_named : Directory → Field → Actor → Option Actor
resolve_named directory (Field.text id) a = with_name (named_by (directory id)) a
resolve_named directory _ a = some a

-- Whom a comment's notification names: nobody if it is anonymous.
unfoldable pub resolve_comment : Directory → Option Bool → Actor → Option Actor
resolve_comment directory none a = some a
resolve_comment directory (some true) a =
    some
      (record { actor_id = Field.missing; sender_id = Field.missing; actor_name = Field.missing })
resolve_comment directory (some false) a = resolve_named directory a.actor_id a

abbrev pub is_comment : Field → Bool
is_comment (Field.text s) = str_eq s "comment.created"
is_comment _ = false

unfoldable pub resolve_actor : Directory → DomainEvent → Option Actor
resolve_actor directory e =
    if is_comment e.event_type
    then resolve_comment directory e.is_anonymous (actor_of e)
    else some (actor_of e)

-- `optionalString`
abbrev pub optional_string : Field → Option String
optional_string (Field.text s) = if is_empty s then none else some s
optional_string _ = none

abbrev pub text_of : Field → String
text_of (Field.text s) = s
text_of _ = ""

abbrev pub notification_of : DomainEvent → String → Actor → Notification
notification_of e recipient a = record {
  recipient_id = recipient;
  actor_id = optional_string (or_field a.actor_id a.sender_id);
  actor_name = a.actor_name;
  notification_type = text_of e.event_type;
}

-- The transaction: the event is claimed, and its notification saved with the claim.
unfoldable pub claim : ℕ → Notification → Tables → Outcome × Tables
claim id n db = if includes db.inbox_events id then (ignored, db) else (
  notified n,
  record { inbox_events = id ∷ db.inbox_events; notifications = db.notifications ++ n ∷ [] },
)

unfoldable pub process_new : Directory → DomainEvent → ℕ → String → Tables → Outcome × Tables
process_new directory e id recipient db = elim (resolve_actor directory e) [
  | none ↦ (Outcome.failed, db)
  | some a ↦ claim id (notification_of e recipient a) db
]

-- `processEvent`, once the event is valid and its identifier is `id`.
unfoldable pub process_valid : Directory → DomainEvent → ℕ → Field → Tables → Outcome × Tables
process_valid directory e id (Field.text recipient) db =
    if includes db.inbox_events id then (ignored, db) else process_new directory e id recipient db
process_valid directory e id _ db = (ignored, db)

unfoldable pub process_identified : Directory → DomainEvent → Option ℕ → Tables → Outcome × Tables
process_identified directory e none db = (invalid, db)
process_identified directory e (some id) db =
    process_valid directory e id (or_field e.recipient_id e.receiver_id) db

unfoldable pub process_event : Directory → DomainEvent → Tables → Outcome × Tables
process_event directory e db =
    if is_valid e then process_identified directory e e.event_id db else (invalid, db)
