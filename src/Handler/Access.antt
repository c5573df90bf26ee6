-- ===== src/Handler/Access.antt =====
-- Who gets what from api/http/handler/control/handler.go.
use Prim.Native.String
use Prim.Native.String.{len}
use Prim.Native.String.append as Append
use Prim.Native.Char.{Char}
use agent_runtime_client.Base.{
  eqb, eqb_iff, eq_refl, String, Bool, true, false, not, ◌&&◌, Option, none, some, ◌≡◌, ◌≢◌, ◌⊎◌,
  ◌↔◌, refl, ap, ◌∙◌, inl, inr, ◌==◌, eq_iff, Bool-cases, Option-cases, sym, arith,
}
use agent_runtime_client.Protocol.Error.{Result, ok, err, not_rejected}
use agent_runtime_client.Protocol.Message.{Time, Action, TaskSession}
use agent_runtime_client.Store.{Store}
use agent_runtime_client.Hub.State.{Hub}
use agent_runtime_client.Hub.Devices.{bind_device, resolve_device}
use agent_runtime_client.Hub.Tasks.{task}
use agent_runtime_client.Hub.Dispatch.{Started}
use agent_runtime_client.Hub.Rules.{Ensures, Ensures-after, Ensures-ok}
use agent_runtime_client.Handler.{
  shown, status, show_task, task_request, trim_space, after_prefix, bearer_token, secure_equal,
  Network, Request, loopback_host, loopback_request, device_allowed, dispatch_request,
}

-- A task is shown to its owner, to everyone while it has no owner, and to a request without a user.
abbrev pub Entitled : String → TaskSession → Type 0
Entitled user_id t = (user_id ≡ "") ⊎ ((t.user_id ≡ "") ⊎ (t.user_id ≡ user_id))

show_task-Entitled :
    (user_id : String) (r : Result (Option TaskSession)) (t : TaskSession)
    → show_task user_id r ≡ shown t
    → (r ≡ ok (some t)) × Entitled user_id t
unfolding show_task
show_task-Entitled user_id (err e) t h = cc
show_task-Entitled user_id (ok none) t h = cc
show_task-Entitled user_id (ok (some u)) t h =
    elim (Bool-cases (not (user_id == "") && not (u.user_id == "") && not (u.user_id == user_id))) [
      | inl e ↦ let g : status 403 ≡ shown t = rw e at h in cc
      | inr e ↦
          let g : shown u ≡ shown t = rw e at h in
          let same : u ≡ t = cc in (ap (λ x. ok (some x)) same, rw (← same) (entitled user_id u e))
    ]
  where
    entitled :
        (user_id : String) (u : TaskSession)
        → (not (user_id == "") && not (u.user_id == "") && not (u.user_id == user_id)) ≡ false
        → Entitled user_id u
    entitled user_id u e =
        ground (arith, eq_iff user_id "", eq_iff u.user_id "", eq_iff u.user_id user_id)

-- A request that is shown a task gets the one that the hub has under this identifier, and it comes
-- from the task's owner, or names no user, or the task has no owner.
pub task_request-Entitled :
    {S : Type 0} ⦃db : Store S⦄ (user_id task_id : String) (h : Hub S) (t : TaskSession)
    → (task_request user_id task_id h).0 ≡ shown t
    → ((task task_id h).0 ≡ ok (some t)) × Entitled user_id t
unfolding task_request
task_request-Entitled user_id task_id h t e = show_task-Entitled user_id _ t e

secure_equal_iff : (left right : String) → (secure_equal left right ≡ true) ↔ (left ≡ right)
unfolding secure_equal
secure_equal_iff left right = (
  λ h. elim (Bool-cases (eqb (len left) (len right))) [
    | inl e ↦ let g : (left == right) ≡ true = rw e at h in (eq_iff left right).0 g
    | inr e ↦ let g : false ≡ true = rw e at h in cc
  ],
  λ e. rw (← e, (eqb_iff (len left) (len left)).1 refl, eq_refl left) refl,
)

same_char : (c d : Char) → (String.◌∷◌ c "" == String.◌∷◌ d "") ≡ true → c ≡ d
same_char c d h = let e : String.◌∷◌ c "" ≡ String.◌∷◌ d "" = (eq_iff _ _).0 h in cc

-- What is left after a prefix is the rest of the text.
after_prefix_iff : (p s t : String) → (after_prefix p s ≡ some t) ↔ (s ≡ String.◌++◌ p t)
unfolding after_prefix
after_prefix_iff String.[] s t =
    let e : String.◌++◌ "" t ≡ t = Append.nil t in (λ h. cc (e, h), λ g. cc (e, g))
after_prefix_iff (String.◌∷◌ c p) String.[] t =
    let e : String.◌++◌ (String.◌∷◌ c p) t ≡ String.◌∷◌ c (String.◌++◌ p t) = Append.cons c p t in
    (λ h. cc, λ g. cc (e, g))
after_prefix_iff (String.◌∷◌ c p) (String.◌∷◌ d s) t =
    let (sound, complete) = after_prefix_iff p s t in
    let joined : String.◌++◌ (String.◌∷◌ c p) t ≡ String.◌∷◌ c (String.◌++◌ p t) =
      Append.cons c p t in
    (
      λ h. elim (Bool-cases (String.◌∷◌ c "" == String.◌∷◌ d "")) [
        | inl e ↦
            let g : after_prefix p s ≡ some t = rw e at h in
            let same = same_char c d e in let rest = sound g in cc (joined, same, rest)
        | inr e ↦ let g : none ≡ some t = rw e at h in cc
      ],
      λ e.
          let both : String.◌∷◌ d s ≡ String.◌∷◌ c (String.◌++◌ p t) = e ∙ joined in
          let same : c ≡ d = cc in
          let rest : s ≡ String.◌++◌ p t = cc in
          rw (same, eq_refl (String.◌∷◌ d "")) (complete rest),
    )

-- A header that carries a token: the token stands after the word, with spaces around it or none.
abbrev pub Bears : String → String → Type 0
Bears authorization token =
    (t : String) × ((authorization ≡ String.◌++◌ "Bearer " t) × (trim_space t ≡ token))

bearer_token_iff :
    (authorization token : String)
    → token ≢ ""
    → (bearer_token authorization ≡ token) ↔ Bears authorization token
unfolding bearer_token
bearer_token_iff authorization token named = (
  λ h. elim (Option-cases (after_prefix "Bearer " authorization)) [
    | inl e ↦ let g : "" ≡ token = rw (bearer_token, e) at h in absurd (named (sym g))
    | inr (t, e) ↦
        let g : trim_space t ≡ token = rw (bearer_token, e) at h in
        (t, ((after_prefix_iff "Bearer " authorization t).0 e, g))
  ],
  λ (t, (e, g)). let f = (after_prefix_iff "Bearer " authorization t).1 e in rw (bearer_token, f) g,
)

-- The host of an address: what stands before the port, or the whole of it where there is none.
abbrev pub HostOf : Network → String → String → Type 0
HostOf net address host =
    (net.split_host_port address ≡ some host)
    ⊎ ((net.split_host_port address ≡ none) × (host ≡ address))

-- A request whose host is an address of the machine itself.
abbrev pub FromMachine : Network → Request → Type 0
FromMachine net r =
    (host : String) × (HostOf net r.remote_addr host × (net.parse_ip host ≡ some true))

is_loopback : (o : Option Bool) → (loopback_host o ≡ true) ↔ (o ≡ some true)
unfolding loopback_host
is_loopback none = (λ h. cc, λ e. cc)
is_loopback (some b) = (λ h. ap some h, λ e. cc)

loopback_request_iff :
    (net : Network) (r : Request) → (loopback_request net r ≡ true) ↔ FromMachine net r
unfolding loopback_request
loopback_request_iff net r = (
  λ h. elim (Option-cases (net.split_host_port r.remote_addr)) [
    | inl e ↦
        let g : loopback_host (net.parse_ip r.remote_addr) ≡ true = rw e at h in
        (r.remote_addr, (inr (e, refl), (is_loopback _).0 g))
    | inr (host, e) ↦
        let g : loopback_host (net.parse_ip host) ≡ true = rw e at h in
        (host, (inl e, (is_loopback _).0 g))
  ],
  λ (host, (from, ip)). elim from [
    | inl e ↦ rw (e, ip) refl
    | inr (e, same) ↦ rw (e, ← same, ip) refl
  ],
)

-- With a device token, exactly the requests whose header `Authorization` is the word `Bearer`, a space
-- and this token, with white space around it or none, open a socket, wherever they come from; without
-- one, exactly the requests from a loopback address.
pub device_allowed_iff :
    (net : Network) (device_token : String) (r : Request)
    → (device_allowed net device_token r ≡ true) ↔ (
        ((device_token ≡ "") × FromMachine net r)
        ⊎ ((device_token ≢ "") × Bears r.authorization device_token))
unfolding device_allowed
device_allowed_iff net device_token r = elim (Bool-cases (device_token == "")) [
  | inl e ↦
      let none_set : device_token ≡ "" = (eq_iff _ _).0 e in
      (
        λ h.
            let g : loopback_request net r ≡ true = rw e at h in
            inl (none_set, (loopback_request_iff net r).0 g),
        λ w. elim w [
          | inl (_, from) ↦ rw (e, (loopback_request_iff net r).1 from)
          | inr (set, _) ↦ absurd (set none_set)
        ],
      )
  | inr e ↦
      let set : device_token ≢ "" = λ p. cc ((eq_iff device_token "").1 p, e) in
      let bears = bearer_token_iff r.authorization device_token set in
      let equal = secure_equal_iff (bearer_token r.authorization) device_token in
      (
        λ h.
            let g : secure_equal (bearer_token r.authorization) device_token ≡ true = rw e at h in
            inr (set, bears.0 (equal.0 g)),
        λ w. elim w [
          | inl (none_set, _) ↦ absurd (set none_set)
          | inr (_, b) ↦ rw (e, equal.1 (bears.1 b))
        ],
      )
]

module _ {S : Type 0} ⦃db : Store S⦄ where
  -- A device is bound for a user.
  bind_device-user :
      (others : Hub S → Hub S) (device_id user_id : String) (h : Hub S)
      → Ensures (λ _ g. user_id ≢ "") (bind_device others device_id user_id h)
  unfolding bind_device
  bind_device-user others device_id user_id h =
      Ensures-after (λ _ g. user_id ≢ "") _ _ _
        λ _ named. record {
          holds = λ a p. let n = not_rejected _ _ named in ground (arith, eq_iff user_id "");
        }

  resolve_device-user :
      (before between : Hub S → Hub S) (user_id requested capability : String) (h : Hub S)
      → Ensures (λ _ g. user_id ≢ "") (resolve_device before between user_id requested capability h)
  unfolding resolve_device
  resolve_device-user before between user_id requested capability h =
      let Q : String → Hub S → Type 0 = λ _ g. user_id ≢ "" in
      Ensures-ok Q h _ h (
        Ensures-after Q _ _ _ λ chosen _. Ensures-ok Q tt _ _ (
          Ensures-after Q _ _ _ λ u bound. record {
            holds = λ a p. (bind_device-user between chosen user_id _).holds u bound;
          }))

-- A dispatch over HTTP that the hub answers or waits for comes from a request with a user, whatever
-- the hub holds and whatever else runs in between.
dispatch_request-user :
    {S : Type 0} ⦃db : Store S⦄ (before between : Hub S → Hub S) (user_id requested : String)
    (a : Action) (now : Time) (h : Hub S) (started : Started)
    → (dispatch_request before between user_id requested a now h).0 ≡ ok started
    → user_id ≢ ""
unfolding dispatch_request
dispatch_request-user before between user_id requested a now h started e =
    (Ensures-after (λ _ g. user_id ≢ "") _ _ _
        λ id resolved. record {
          holds = λ s p.
              (resolve_device-user before between user_id requested a.capability h).holds id
                resolved;
        }).holds
      started e
