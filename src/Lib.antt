-- ===== src/Lib.antt =====
-- Signage broker: the Go program under backend/ that serves door panels.
--
-- Meeting-room displays (ESP32 units with a six-color e-ink panel) sleep most of the time. The broker
-- polls the rooms' calendars, composes an image for each display and caches it; a display that wakes
-- fetches its image and the seconds it is to sleep, and posts a health report, from which the broker
-- raises alerts. People sign in to see or administer the fleet.
--
-- Parts, with paths from the repository's root (the Go files are under backend/internal/):
--   Calendar   calendar/calendar.go: `normalize`, `current`, `next`, `room_status` and
--              `next_transition_at` are Normalize, Current, Next, RoomStatus and NextTransitionAt.
--              Calendar/Sorting: the order that Normalize makes and that Next relies on.
--              Calendar/Status: the status over time, and the announced transition.
--   Config     config/config.go, config/notify.go. Config/Types: the configuration and its lookups.
--              Config/Wake: NextWakeDuration and what it calls. Config/Grid: wakes on the grid.
--              Config/Sleep: the sleep in smart mode.
--              Config/Checks, Config/Encodings, Config/Validate: Validate and what it calls.
--              Config/WellFormed: what it accepts. Config/Edits: WithRoom, WithoutUser and the other
--              edits; Edits/Lookups, Edits/Admins and Edits/Access: what they leave.
--   Crc        hash/crc32's ChecksumIEEE, as that package documents it.
--   Render     render/: Render/PackBits is packbits.go, with the decoder of firmware/main/protocol.hpp;
--              Render/Payload is payload.go, with the firmware's parser, net_client.cpp's check of the
--              body and epd_spectra6.cpp's fill of the framebuffer; Render/Spectra6 is spectra6.go.
--   Cache      cache/cache.go: the image store and the daily forced refresh.
--   Poller     poller/poller.go: a refresh of the displays of one calendar address, a step on the
--              cache and on the telemetry store.
--   Telemetry  telemetry/telemetry.go and sink.go: latest reports, and the queue to the sink.
--   Status     status/status.go: the rows of the status page.
--   Notify     notify/notify.go and notify/charge.go: the latches behind the battery, charge and
--              silence alerts.
--   Auth       auth/session.go (Auth/Sessions), credentials.go (Auth/Credentials), totp.go
--              (Auth/Totp), and the tokens and the rate limit of server/forgot_password.go and
--              server/password_reset.go (Auth/Tokens).
--   Server     server/: Server/Gate is requireRole of login.go, Gate/Confinement what passes it;
--              Server/Login is the login and the logout of login.go, the code's form and the
--              password's, Login/SecondFactor a history of them, Login/Password a login after a
--              change of password; Server/Devices is auth.go, refreshDerived of server.go, and
--              handleDisplay and handleTelemetry of handlers.go, on one state with the stores above;
--              Devices/Authorized says who may use them, Devices/Synced what a display shows.
--              Server/Site is the part of `Server` that pages change, `New`, and applyConfig of
--              configwrite.go; Site/Coherent, Site/Saves and Site/Serves are what it keeps,
--              Site/Overlap two saves at once. Server/Forms reads a posted form. Server/Admin has
--              the forms of admin.go, password_reset.go, admin_locations.go and
--              admin_notifications.go, and the channels of notifications.go. Server/Scope is
--              scope.go, manager.go's form and push.go. Server/Reset is forgot_password.go.
--              Server/Writes has all of these as steps of one state. Server/Stale is checkStale of
--              notifications.go, Stale/Shown what the status page has to do with it.
--   Base       lists, texts (lists of bytes), association lists for Go's maps, and integers.
--              Base/Folding: ToLower and EqualFold of Go's strings package, which are not the same;
--              it says which letters they fold.
--   Examples   runs on concrete data.
--
-- A store's lock makes each of its operations one step, so concurrent calls are lists of steps
-- (`Op`, `run`), and a property of a store is stated over every such list. The web forms take their
-- lock only to save: Server/Writes takes them one after the other, and Site/Overlap has two at
-- once. A time is a natural number of nanoseconds since year 1, Go's zero time (since 1970 in
-- Auth/Totp), and a duration one of nanoseconds; `Zone` gives the wall clock of a time. A uint32
-- keeps its wrap-around. A panic and an error are `none` or a result of their own.
--
-- Loops are recursion on the data, except PackBits and its decoder, which run on fuel: the length of
-- what is left to read, which each round shortens.
--
-- Parameters: the hash of a token, whether a write of the session file succeeds, the image layout, the
-- PNG encoder, what a fetch returns, the zone, whether the sink accepts a record, whether a time zone
-- is known, the parsing of a URL, SHA-256, HMAC-SHA1, base32, and the decoding of a JSON report. The
-- record `World` has those of the web forms: also the text that the configuration is saved as, the
-- parsing of numbers and of VAPID keys, and the backend's name and durability; `Moment` has what a
-- request meets: the time, the texts drawn at random, and what the backend does with a save, which may
-- fail and have written nevertheless.
--
-- Not modelled: the pages and the templates, the messages that test a channel, the provisioning of
-- a device, the configuration's files and the Kubernetes API, the SQLite sink, the channels that
-- carry a message, the calendar service, the drawing of the layout, the commands and tools, and the
-- firmware's drivers.
pub mod Base
pub mod Crc
pub mod Render
pub mod Calendar
pub mod Config
pub mod Auth
pub mod Cache
pub mod Poller
pub mod Notify
pub mod Telemetry
pub mod Status
pub mod Server
pub mod Examples
