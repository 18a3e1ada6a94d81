-- ===== src/Lib.antt =====
-- AcaSocial is a social network for a university. Its services are NestJS programs in TypeScript:
-- services/discussion-service (rooms, posts, answers, comments, votes, moderation),
-- services/identity-service, services/academic-service, services/media-service and
-- services/notification-service, behind a gateway in Go and with a front end in Next.js. This
-- development models the core of the discussion service (the methods of its services for rooms,
-- posts, answers, comments, votes, tags and moderation that change the database, the presentation of
-- content, and the outbox), the accounts, one-time codes and sessions of the identity service, the
-- consumer and inbox of the notification service, the catalogue of the academic service, and the
-- stored files of the media service; of the front end, the refresh of access tokens.
--
-- A request arrives with the identity that the gateway verified (`GatewayUser`). A method of a
-- service reads and writes the database, mostly inside one transaction, calls the other services for
-- attachments, academic contexts and user names, and writes its events into an outbox in the same
-- transaction. RoomsService decides who may post; content-policy.ts holds the checks that all the
-- others share; a question's accepted answer is touched by AnswersService, DiscussionsService and
-- ModerationService.
--
-- Files, and the sources they translate (paths under services/discussion-service/src):
--   Base        tests on numbers, and tables as lists with `find?`, `replace`, `count`, `update`, and
--               their laws
--   Service     the monad `Run S` in which the methods of every service run, and in Rules and
--               Endings the program logic for it: `Ends P x` says that the run `x` ended such that `P` holds, `Checks` that
--               a step only checks
--   Store       the entities and enumerations (*.entity.ts, enums), the database `Db`, its monad
--               `Action`, and the steps of the discussion service with their rules
--   Outbox      events/outbox.service.ts; Worker is events/outbox.worker.ts, with the proofs in Batch,
--               Writing, Delivery, Rounds and Draining
--   Policy      common/content-policy.ts
--   Rooms       rooms/rooms.service.ts: Permission, Access (findOne, assertCanPost), Members (join,
--               updateMembership), Govern (updateStatus, updatePolicy, addRule), Create; the proofs
--               are in Checks, Posting, Owners and Lifecycle
--   Mentions    common/mention.service.ts
--   Acceptance  revokeAcceptance of answers/answers.service.ts, and the agreement of a question with
--               its acceptances
--   Votes       votes/votes.service.ts; proofs in Voting, Counters and OneVote
--   Answers     answers/answers.service.ts; proofs in Accepting
--   Comments    comments/comments.service.ts
--   Media       common/media-reference.service.ts
--   Presenter   common/content-presenter.ts; proofs in Anonymity
--   Tags        the tag checks and counters of discussions/discussions.service.ts; Admin is
--               tags/tags.service.ts, with proofs in Merging and Slugs
--   Discussions discussions/discussions.service.ts: Create, Edit, Status
--   Moderation  moderation/moderation.service.ts; proofs in Review and Publishing
--   MediaStore  services/media-service/src/media/media.service.ts, with proofs in Uploads and Deletion;
--               Scanner is virus-scanner.service.ts, with proofs in Framing
--   Academic    services/academic-service/src/academic.service.ts, entities.ts and access.ts: curricula
--               and the topics of courses here, overlapping calls of updateCurriculumStatus in
--               StatusCalls, the other rows in Catalogs; proofs in Curricula, Overlapping and
--               CourseTopics
--   Identity    services/identity-service/src: otp/otp.service.ts in Otp, with Redis as an interface and
--               proofs in Lockout and Once; changeRole and deleteAccount of users/users.service.ts in
--               Users, overlapping transactions of changeRole in RoleCalls, with proofs in Admins and
--               Overlapping; the rest of it in Profile; auth/auth.service.ts and auth/strategies/jwt.strategy.ts in Auth;
--               common/parse-ttl.util.ts in Ttl; Sessions lists the writing requests, and proves what
--               they do to the tokens (LoggingIn, Spent, Serving, Rotation, Revocation)
--   Notifications  services/notification-service/src/notifications/notifications.service.ts and
--               domain-event.ts; Consumer is nats.consumer.ts
--   Client      frontend/src/lib/api/client.ts: the refresh of a token that requests share; proofs in
--               Refreshing
--   Tests       a sample database, runs on it, and the theorems at concrete inputs
-- A method keeps its name, in snake case: `assertCanPost` is `assert_can_post`.
--
-- How the model reads the code. A table is the list of its rows; a row is found by the condition of
-- the query, which is on a key that the schema declares unique. A soft delete sets `deleted`, and
-- queries do not see the row. A duration is computed in the doubles of JavaScript (Ttl); other
-- numbers stay below 2 ^ 53. A uuid is a number: the code compares uuids only for equality, and a
-- new one is `next_id`. All of a call happens at one instant, `clock`. An exception is an `err`
-- with its class and without its message. `transaction` takes the writes of a callback back when it
-- throws; where a callback calls RoomsService, which writes on a connection of its own, the
-- memberships stay (`transaction_with_rooms`). A lock is a read, and a call runs without another in
-- between. In the discussion service the locks on rooms, posts, answers and outbox rows enforce that
-- for the rows that its theorems are about, but for merging tags, which takes no lock. The methods
-- of the identity, academic and media services take hardly any locks. The theorems on what runs
-- without a lock are about calls that do not overlap. Only updateCurriculumStatus
-- and changeRole are also modelled with calls that overlap (StatusCalls, RoleCalls), and the
-- theorems on that say which overlaps they exclude; refreshToken and verifyOtp read and write in
-- several steps without a lock, and what two uses of a token or a code do that overlap is not
-- covered. Loops are recursions on lists, tables and strings, and all methods are total. Fuel is
-- taken by the loop that sends a file to the virus scanner, where the length of the file is enough,
-- by the reader of that stream, where one more is, by the decimal digits of a number, where the
-- number is, and by the rounding of an integer to a double, where 971 is, since a double has no
-- larger exponent: the theorems are stated with that fuel.
--
-- Parameters stand for the other services: `MediaReference` for the answers of the media service,
-- `AcademicReference` for those of the academic service, `Identity` for the resolved user names,
-- `Directory` for the names of actors. No theorem assumes anything of them. `Redis` holds the
-- commands that the one-time codes use and their documented laws; Tests/MemoryRedis.antt has an
-- instance. The laws include the times to live: a key is gone when its seconds have passed.
-- `Crypto` holds the hash functions, with the law that bcrypt accepts a password against its hash;
-- `Broker` says what became of a publication to NATS; `Unicode` is what JavaScript's texts know of
-- letters and accents; the answers of Cloudinary, ClamAV and the other services to the media
-- service are arguments of its methods, as are the answers of OtpService to the methods that call
-- it.
--
-- Not modelled: the queries that only list rows, the columns for AI screening and seed data,
-- validation of requests by decorators, the texts of events, the cooldown of resent codes in Redis
-- and the mailing of codes, reading a notification, the migrations, the gateway, and the front end
-- but for the refresh of tokens.
pub mod Base
pub mod Service
pub mod Store
pub mod Outbox
pub mod Policy
pub mod Rooms
pub mod Mentions
pub mod Acceptance
pub mod Presenter
pub mod Votes
pub mod Answers
pub mod Comments
pub mod Media
pub mod Tags
pub mod Discussions
pub mod Moderation
pub mod Client
pub mod MediaStore
pub mod Academic
pub mod Identity
pub mod Notifications
mod Tests
