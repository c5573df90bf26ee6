-- ===== src/Handler.antt =====
-- api/http/handler/control/handler.go: the HTTP and WebSocket surface of the hub. Parsing of JSON
-- and of requests is done before the arguments here; a frame that can not be parsed is
-- a `none`.
pub mod Access
use Prim.Native.String
use Prim.Native.String.{len}
use Prim.Native.Char.{code}
use agent_runtime_client.Base.{
  ℕ, String, Bool, true, false, not, ◌&&◌, ◌||◌, Option, none, some, List, ◌==◌, is_space, eqb,
  if◌then◌else◌,
}
use agent_runtime_client.Protocol.Error.{Error, Result, ok, err, external}
use agent_runtime_client.Protocol.Error
use agent_runtime_client.Protocol.Message.{
  Time, protocol, DeviceMessage, Action, Observation, Progress, TaskSession,
}
use agent_runtime_client.Protocol.Validate.{Codec}
use agent_runtime_client.Store.{Store}
use agent_runtime_client.Hub.State.{Hub, M, ◌>>=◌, ◌>>◌, pure, fail, lift, after}
use agent_runtime_client.Hub.Devices.{register, touch, resolve_device}
use agent_runtime_client.Hub.Tasks.{task, begin_task}
use agent_runtime_client.Hub.Messages.{observe, progress}
use agent_runtime_client.Hub.Dispatch.{Started, dispatch_start}

-- The answer to a request: a body, or a status of failure.
pub data Reply (A : Type 0) : Type 0 where
  shown : A → Reply A
  status : ℕ → Reply A

-- `Task` once the hub has answered.
unfoldable pub show_task : String → Result (Option TaskSession) → Reply TaskSession
show_task user_id (err e) = status 500
show_task user_id (ok none) = status 404
show_task user_id (ok (some t)) =
    if not (user_id == "") && not (t.user_id == "") && not (t.user_id == user_id)
    then status 403
    else shown t

trim_left : String → String
trim_left String.[] = ""
trim_left (String.◌∷◌ c s) =
    let rest = trim_left s in if is_space (code c) then rest else String.◌∷◌ c s

blank : String → Bool
blank String.[] = true
blank (String.◌∷◌ c s) = is_space (code c) && blank s

trim_right : String → String
trim_right String.[] = ""
trim_right (String.◌∷◌ c s) =
    let rest = trim_right s in if is_space (code c) && blank s then "" else String.◌∷◌ c rest

-- `strings.TrimSpace`
unfoldable pub trim_space : String → String
unfolding trim_left trim_right blank
trim_space s = trim_right (trim_left s)

-- What is left of a text after a prefix that it has.
unfoldable pub after_prefix : String → String → Option String
after_prefix String.[] s = some s
after_prefix (String.◌∷◌ c p) String.[] = none
after_prefix (String.◌∷◌ c p) (String.◌∷◌ d s) =
    let rest = after_prefix p s in if String.◌∷◌ c "" == String.◌∷◌ d "" then rest else none

-- `bearerToken`
unfoldable pub bearer_token : String → String
unfolding after_prefix
bearer_token value = elim (after_prefix "Bearer " value) [ none ↦ "" | some t ↦ trim_space t ]

-- `secureEqual`, where `subtle.ConstantTimeCompare` compares texts of one length.
unfoldable pub secure_equal : String → String → Bool
secure_equal left right = if not (eqb (len left) (len right)) then false else left == right

-- The functions of the package `net` that the code calls: the host of `net.SplitHostPort`, or nothing
-- on an error, and whether the address of `net.ParseIP` is loopback, or nothing for a text that is
-- no address.
pub record Network : Type 0 where
  pub split_host_port : String → Option String
  pub parse_ip : String → Option Bool

-- What of a request decides whether a socket is opened.
pub record Request : Type 0 where
  pub remote_addr : String
  pub authorization : String

unfoldable pub loopback_host : Option Bool → Bool
loopback_host none = false
loopback_host (some loopback) = loopback

-- `loopbackRequest`
unfoldable pub loopback_request : Network → Request → Bool
unfolding loopback_host
loopback_request net r = loopback_host (
    net.parse_ip
      (elim (net.split_host_port r.remote_addr) [ none ↦ r.remote_addr | some host ↦ host ]))

-- Whether `Device` opens a socket.
unfoldable pub device_allowed : Network → String → Request → Bool
device_allowed net device_token r =
    if device_token == ""
    then loopback_request net r
    else secure_equal (bearer_token r.authorization) device_token

-- A message of a device after its greeting.
pub data Incoming : Type 0 where
  unreadable : Incoming
  heartbeat : Incoming
  observed : Option Observation → Incoming
  progressed : Option Progress → Incoming
  other : Incoming

-- What goes back to the device.
pub data Outgoing : Type 0 where
  nothing : Outgoing
  acknowledged : Outgoing
  failure : Error → Outgoing

abbrev outcome : Result (Unit {0}) → Outgoing
outcome (ok u) = nothing
outcome (err e) = failure e

module _ {S : Type 0} ⦃db : Store S⦄ where
  -- `Task`
  unfoldable pub task_request : String → String → Hub S → Reply TaskSession × Hub S
  unfolding show_task
  task_request user_id task_id h = (show_task user_id (task task_id h).0, (task task_id h).1)

  -- The beginning of `serveDevice`: a greeting registers the connection.
  unfoldable pub greet : Option DeviceMessage → ℕ → Time → M S (Unit {0})
  greet none conn now = fail (external "HELLO is required")
  greet (some hello) conn now = do
    lift (
        Error.reject (not (hello.protocol == protocol) || not (hello.type == "HELLO"))
          (external "HELLO is required"))
    register hello (some conn) now

  -- One turn of the loop of `serveDevice`.
  unfoldable pub serve : Codec → String → Incoming → Time → Hub S → Outgoing × Hub S
  serve codec device_id unreadable now h = (nothing, h)
  serve codec device_id heartbeat now h = (acknowledged, (touch device_id now h).1)
  serve codec device_id (observed none) now h = (nothing, h)
  serve codec device_id (observed (some o)) now h =
      let r = observe codec o now (touch device_id now h).1 in (outcome r.0, r.1)
  serve codec device_id (progressed none) now h = (nothing, h)
  serve codec device_id (progressed (some p)) now h =
      let r = progress p now (touch device_id now h).1 in (outcome r.0, r.1)
  serve codec device_id other now h = (nothing, h)

  -- `Dispatch` up to the point where the hub waits; others may run in the gaps of `ResolveDevice`.
  unfoldable pub dispatch_request :
      (Hub S → Hub S) → (Hub S → Hub S) → String → String → Action → Time → M S Started
  dispatch_request before between user_id requested action now = do
    device_id ← resolve_device before between user_id requested action.capability
    (if action.task_id == "" then pure tt else begin_task action.task_id user_id "" device_id now)
    dispatch_start device_id action none now
