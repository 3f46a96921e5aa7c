-- ===== src/Main/Node.antt =====
-- Runs of the whole program of cmd/localsend-nas/main.go: the requests of other devices and those of
-- the web UI, in any order, on the parts that the two servers share.

use mathlib.Core.Option.{some-injective}
use localsend_nas.Prelude.{
  Bool, List, [], ◌∷◌, ◌++◌, Option, none, some, Str, lookup, All, In, here, there, refl, sym, ap,
  ◌≡◌, ◌∙◌,
}
use localsend_nas.Transfer
use localsend_nas.Transfer.{receive_direction, find}
use localsend_nas.Transfer.Hooks.{job_state}
use localsend_nas.Host.{Host}
use localsend_nas.Receive
use localsend_nas.Receive.{Fault, Hook, Session, cancelled, cancel_session, is_pending, is_accepted}
use localsend_nas.Transfer.Mirror.{state_for}
use localsend_nas.Transfer.Reach.{new-Mirrors}
use localsend_nas.Transfer.Shown.{replay, shown, state_of}
use localsend_nas.LsServer.{Server}
use localsend_nas.LsServer.Steps as DeviceRequests
use localsend_nas.LsServer.Steps.{Received, Request-Received}
use localsend_nas.HttpApi.{Api}
use localsend_nas.HttpApi.Requests.{Request}
use localsend_nas.Main.{server_of}
use localsend_nas.Transfer.Facing.{facing, direction_of}
use localsend_nas.Transfer.Agree.{Agrees, no_session, listed, gone, Tracks-replay}
use localsend_nas.Main.Piped.{Runs_of_Steps, Runs-Mirrors}
use localsend_nas.Main.Kept.{IsUnused, Explains, deletes_of, sends_of, Kept, web-Kept}

-- The hooks that a request of another device called.
pub data NewHooks : Option Receive.Manager → Option Receive.Manager → List Hook → Type 0 where
  silent : NewHooks none none []
  called :
      (m m' : Receive.Manager) (hooks : List Hook)
      → m'.trace ≡ m.trace ++ hooks
      → NewHooks (some m) (some m') hooks

module _ {D : Type 0} (host : Host D) where
  module _ (message : Fault → Str) (due : Hook → Bool) where
    -- The shared parts after a request of another device: its hooks reach the job list.
    abbrev pub absorb : Server → List Hook → Api → Api
    absorb s hooks a = record a {
      disc = s.registry;
      rcv = s.receiver;
      tm = replay message due hooks a.tm;
    }

    pub data Event : Api → D → D → Api → Type 0 where
      web :
          (a a' : Api) (d d' : D) (r : Request host a d d' a')
          → IsUnused a.rcv (sends_of host r)
          → Event a d d' a'
      device :
          (a : Api) (s' : Server) (d d' : D) (hooks : List Hook)
          → DeviceRequests.Request host a.store (server_of a) d s' d'
          → NewHooks a.rcv s'.receiver hooks
          → Event a d d' (absorb s' hooks a)

    pub data Events : Api → D → D → Api → Type 0 where
      quiet : (a : Api) (d : D) → Events a d d a
      event :
          (a a1 a' : Api) (d d1 d' : D) → Event a d d1 a1 → Events a1 d1 d' a' → Events a d d' a'

    abbrev asked : {a : Api} {d d' : D} {a' : Api} → Event a d d' a' → Option Str
    asked (web a a' d d' r u) = deletes_of host r
    asked (device a s' d d' hooks r n) = none

    -- The jobs that the web UI asked to remove.
    abbrev pub deleted : {a : Api} {d d' : D} {a' : Api} → Events a d d' a' → List Str
    deleted (quiet a d) = []
    deleted (event a a1 a' d d1 d' x xs) = elim (asked x) [
      | none ↦ deleted xs
      | some id ↦ id ∷ deleted xs
    ]

    module _ (removed : Str → Type 0) where
      NewHooks-trace :
          (o o' : Option Receive.Manager) (hooks : List Hook) (m m' : Receive.Manager)
          → NewHooks o o' hooks
          → o ≡ some m
          → o' ≡ some m'
          → m'.trace ≡ m.trace ++ hooks
      NewHooks-trace _ _ _ m m' silent e e' = cc
      NewHooks-trace _ _ _ m m' (called n n' hooks t) e e' =
          ap (λ x. x.trace) (sym (some-injective _ _ e'))
          ∙ t
          ∙ ap (λ x. x.trace ++ hooks) (some-injective _ _ e)

      Event-Kept :
          (a : Api) (d d' : D) (a' : Api) (x : Event a d d' a')
          → Explains removed (asked x)
          → Kept host message due removed a
          → Kept host message due removed a'
      Event-Kept _ _ _ _ (web a a' d d' r u) x k =
          web-Kept host message due removed a d d' a' r u x k
      Event-Kept _ _ _ _ (device a s' d d' hooks r n) x k =
          let got = Request-Received host a.store (server_of a) d d' s' k.manager r k.receiver in
          let mirrored = λ (ms : Fault → Str) (du : Hook → Bool).
            Runs-Mirrors host ms du (Runs_of_Steps host a.store got.steps) (k.mirrors ms du) in
          record {
            manager = got.manager;
            receiver = got.receiver;
            mirrors = mirrored;
            tracks =
                Tracks-replay message due removed k.manager got.manager hooks a.tm
                  (k.mirrors message due) (mirrored message due)
                  (NewHooks-trace a.rcv s'.receiver hooks k.manager got.manager n k.receiver
                    got.receiver)
                  k.tracks;
          }

      explained :
          (o : Option Str) (ids : List Str)
          → All removed (elim o [ none ↦ ids | some id ↦ id ∷ ids ])
          → Explains removed o × All removed ids
      explained none ids h = (tt, h)
      explained (some id) ids h = h

      Events-Kept :
          (a : Api) (d d' : D) (a' : Api) (xs : Events a d d' a')
          → All removed (deleted xs)
          → Kept host message due removed a
          → Kept host message due removed a'
      Events-Kept _ _ _ _ (quiet a d) h k = k
      Events-Kept _ _ _ _ (event a a1 a' d d1 d' x xs) h k =
          let (first, later) = explained (asked x) (deleted xs) h in
          Events-Kept a1 d1 d' a' xs later (Event-Kept a d d1 a1 x first k)

    -- What the job list shows for a session: a received job in the state of the session, or no job,
    -- and then its removal was asked for.
    pub data IsListed (id : Str) (s : Session) (deleted : List Str)
        : Option Transfer.Entry → Type 0 where
      present :
          (x : Transfer.Entry)
          → x.job.state ≡ job_state s.state
          → x.job.direction ≡ receive_direction
          → IsListed id s deleted (some x)
      absent : In id deleted → IsListed id s deleted none

    -- The pipeline and the job list beside it.
    pub record Shows (a : Api) (deleted : List Str) : Type 0 where
      pub manager : Receive.Manager
      pub receiver : a.rcv ≡ some manager
      pub shows :
          (id : Str) (s : Session)
          → lookup id manager.sessions ≡ some s
          → IsListed id s deleted (find id a.tm)

    Agrees-IsListed :
        (id : Str) (s : Session) (ids : List Str) (ex sh : Option Transfer.State) (fc : Option Str)
        (o : Option Transfer.Entry)
        → Agrees (In id ids) ex sh fc
        → ex ≡ some (job_state s.state)
        → sh ≡ state_of o
        → fc ≡ direction_of o
        → IsListed id s ids o
    Agrees-IsListed id s ids _ _ _ o (no_session sh fc) e h k = cc
    Agrees-IsListed id s ids _ _ _ none (listed st) e h k = cc
    Agrees-IsListed id s ids _ _ _ (some x) (listed st) e h k =
        present x (sym (some-injective _ _ h) ∙ some-injective _ _ e) (sym (some-injective _ _ k))
    Agrees-IsListed id s ids _ _ _ none (gone st r) e h k = absent r
    Agrees-IsListed id s ids _ _ _ (some x) (gone st r) e h k = cc

    All-In : (ids more : List Str) → ((j : Str) → In j ids → In j more) → All (λ j. In j more) ids
    All-In [] more h = tt
    All-In (i ∷ ids) more h = (h i (here refl), All-In ids more (λ j k. h j (there k)))

    -- From a receiver without sessions, after any requests of other devices and
    -- of the web UI in any order, those between the reads of an upload included, the job list of the
    -- program shows every session as a received job in the state that the session is in, unless the
    -- web UI asked to remove it, where no job sent gets the id of a session.
    pub Events-Shows :
        (a : Api) (d d' : D) (a' : Api) (xs : Events a d d' a')
        → a.rcv ≡ some Receive.new
        → Shows a' (deleted xs)
    unfolding lookup
    Events-Shows a d d' a' xs e =
        let at_start : Kept host message due (λ j. In j (deleted xs)) a = record {
          manager = Receive.new;
          receiver = e;
          mirrors = new-Mirrors host a.store;
          tracks = record { agrees = λ j. no_session (shown j a.tm) (facing j a.tm) };
        } in
        let end =
          Events-Kept (λ j. In j (deleted xs)) a d d' a' xs
            (All-In (deleted xs) (deleted xs) (λ j k. k)) at_start in
        record {
          manager = end.manager;
          receiver = end.receiver;
          shows = λ id s q.
              Agrees-IsListed id s (deleted xs) _ _ _ (find id a'.tm) (end.tracks.agrees id)
                (ap state_for q) refl refl;
        }
