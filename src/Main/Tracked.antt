-- ===== src/Main/Tracked.antt =====
-- What a request of the web UI leaves of the job list beside the sessions of the receive pipeline.

use mathlib.Core.Option.{some-injective}
use localsend_nas.Prelude.{
  ℕ, Bool, false, [], Option, none, some, Str, Result, ok, err, lookup, str_eq, str_eq_iff,
  trim_space, is_some, not, ◌&&◌, Bool-cases, Option-cases, ◌==◌, ◌≡◌, refl, sym, ap, ◌∙◌, inl, inr,
}
use mathlib.Core.Path.{subst}
use localsend_nas.Host.{Host}
use localsend_nas.LocalSend.{Info}
use localsend_nas.Settings
use localsend_nas.Shares
use localsend_nas.Shares.{ShareError, path}
use localsend_nas.Discovery
use localsend_nas.Discovery.{remove, get}
use localsend_nas.Receive
use localsend_nas.Receive.{Fault, Hook, cancel_session, is_pending}
use localsend_nas.Receive.Prepare.{decide}
use localsend_nas.Transfer
use localsend_nas.Transfer.{find, subscribe, unsubscribe}
use localsend_nas.Transfer.Expand.{expand}
use localsend_nas.Transfer.Run.{send, is_empty}
use localsend_nas.Transfer.Shown.{shown, state_of}
use localsend_nas.Transfer.Mirror.{expected, trace-modify}
use localsend_nas.Transfer.Facing.{
  facing, direction_of, AreAlike, same-AreAlike, subscribe-AreAlike, unsubscribe-AreAlike,
  AreAlike-trans, send-AreAlike,
}
use localsend_nas.Transfer.Agree.{Agrees, no_session, listed, gone, Tracks}
use localsend_nas.HttpApi.{Api, Reply, handle_put_settings, handle_add_device, handle_delete_device}
use localsend_nas.HttpApi.Sending.{SendBody, handle_send, handle_delete_transfer}
use localsend_nas.HttpApi.Events.{open_stream}
use localsend_nas.HttpApi.Answers.{handle_delete_transfer-status}
use localsend_nas.HttpApi.Sound.{put_settings-api, add_device-api}

module _ {D : Type 0} (host : Host D) where
  pub delete_device_tm :
      (json : Discovery.Codec) (fp : Str) (a : Api) (d : D)
      → (handle_delete_device host json fp a d).1.tm ≡ a.tm
  unfolding handle_delete_device
  delete_device_tm json fp a d = elim (Bool-cases (remove host json fp a.disc d).0) [
    | inl q ↦ rw (q, handle_delete_device) refl
    | inr q ↦ rw (q, handle_delete_device) refl
  ]

  pub put_settings_tm :
      (json : Settings.Codec) (body : Result Str Settings.Settings) (a : Api) (d : D)
      → (handle_put_settings host json body a d).1.tm ≡ a.tm
  unfolding handle_put_settings
  put_settings_tm json (err e) a d = refl
  put_settings_tm json (ok input) a d = ap (λ x. x.tm) (put_settings-api host json input a d)

  pub add_device_tm :
      (json : Discovery.Codec) (now : ℕ) (probe : Str → ℕ → Result Str Info) (body : Result Str Str)
      (a : Api) (d : D)
      → (handle_add_device host json now probe body a d).1.tm ≡ a.tm
  unfolding handle_add_device
  add_device_tm json now probe (err e) a d = refl
  add_device_tm json now probe (ok address) a d =
      elim (Bool-cases (str_eq (trim_space address) [])) [
        | inl q ↦ rw (q, handle_add_device) refl
        | inr q ↦ ap (λ x. x.tm) (add_device-api host json now probe address a d q)
      ]

  pub open-AreAlike :
      (sub : ℕ) (flushes : Bool) (id : Str) (a : Api) (j : Str)
      → AreAlike j a.tm (open_stream sub flushes id a).1.tm
  unfolding open_stream
  open-AreAlike sub flushes id a j =
      let joined = subscribe-AreAlike sub id a.tm j in
      elim (Bool-cases (subscribe sub id a.tm).0) [
        | inr f ↦ rw (open_stream, f) joined
        | inl f ↦ elim (Bool-cases flushes) [
          | inl g ↦ rw (open_stream, f, g) joined
          | inr g ↦
              rw (open_stream, f, g)
                (AreAlike-trans joined (unsubscribe-AreAlike sub id (subscribe sub id a.tm).1 j))
        ]
      ]

  pub send_tm-AreAlike :
      (quote : Str → Str) (describe : ShareError → Str) (to_lower : Str → Str) (fuel : ℕ) (id : Str)
      (now : ℕ) (body : Result Str SendBody) (a : Api) (d : D) (a' : Api) (r : Reply) (j : Str)
      → str_eq id j ≡ false
      → handle_send quote describe host to_lower fuel id now body a d ≡ some (r, a')
      → AreAlike j a.tm a'.tm
  unfolding handle_send
  send_tm-AreAlike quote describe to_lower fuel id now (err e) a d a' r j n q =
      same-AreAlike j (ap (λ x. x.1.tm) (some-injective _ _ q))
  send_tm-AreAlike quote describe to_lower fuel id now (ok b) a d a' r j n q =
      elim (Option-cases (
        send (get b.target a.disc) b.target (is_empty b.items)
          (expand host d to_lower a.store fuel b.items) id now a.tm)) [
            | inl e ↦ cc (q, rw (handle_send, e) at q)
            | inr ((err x, tm), e) ↦
                AreAlike-trans (send-AreAlike _ b.target _ _ id now a.tm tm (err x) j n e) (
                  same-AreAlike j
                    (ap (λ x. x.1.tm) (some-injective _ _ (rw (handle_send, e) at q))))
            | inr ((ok i, tm), e) ↦
                AreAlike-trans (send-AreAlike _ b.target _ _ id now a.tm tm (ok i) j n e) (
                  same-AreAlike j
                    (ap (λ x. x.1.tm) (some-injective _ _ (rw (handle_send, e) at q))))
          ]

  pub decide-trace :
      (shares : Shares.Store) (id : Str) (accept : Bool) (share : Str) (m : Receive.Manager)
      → (decide shares id accept share m).1.trace ≡ m.trace
  unfolding decide
  decide-trace shares id accept share m = elim (Option-cases (lookup id m.sessions)) [
    | inl q ↦ rw (q, decide) refl
    | inr (s, q) ↦ elim (Bool-cases (is_pending s.state)) [
      | inr p ↦ rw (q, decide, p) refl
      | inl p ↦ elim (Bool-cases (accept && not (is_some (path shares share)))) [
        | inl b ↦ rw (q, decide, p, b) refl
        | inr b ↦ rw (q, decide, p, b) (trace-modify id _ m)
      ]
    ]
  ]

module _ (removed : Str → Type 0) where
  -- A removal is the only change, and it explains what is missing.
  pub Tracks-delete :
      (id : Str) (a : Api) (m : Receive.Manager)
      → removed id
      → Tracks removed m a.tm
      → Tracks removed m (handle_delete_transfer id a).1.tm
  Tracks-delete id a m r t = record {
    agrees = λ j.
        let found = (handle_delete_transfer-status id a j).1 in
        let tm' = (handle_delete_transfer id a).1.tm in
        elim (Bool-cases (str_eq j id)) [
          | inr n ↦
              let same : find j tm' ≡ find j a.tm = found ∙ (rw n refl) in
              rw (ap state_of same, ap direction_of same) (t.agrees j)
          | inl n ↦ elim (Bool-cases ((handle_delete_transfer id a).0.status == 204)) [
            | inr k ↦
                let same : find j tm' ≡ find j a.tm = found ∙ (rw (n, k) refl) in
                rw (ap state_of same, ap direction_of same) (t.agrees j)
            | inl k ↦
                let none_left : find j tm' ≡ none = found ∙ (rw (n, k) refl) in
                rw (ap state_of none_left, ap direction_of none_left)
                  (left j (expected j m) _ _ (subst removed (sym ((str_eq_iff j id).0 n)) r)
                    (t.agrees j))
          ]
        ];
  }
    where
      left :
          (j : Str) (ex sh : Option Transfer.State) (fc : Option Str)
          → removed j
          → Agrees (removed j) ex sh fc
          → Agrees (removed j) ex none none
      left j _ _ _ r (no_session sh fc) = no_session none none
      left j _ _ _ r (listed st) = gone st r
      left j _ _ _ r (gone st k) = gone st k

  -- A job with an id of no session is no session's.
  pub Tracks-others :
      (id : Str) (m : Receive.Manager) (tm tm' : Transfer.Manager)
      → lookup id m.sessions ≡ none
      → ((j : Str) → str_eq id j ≡ false → AreAlike j tm tm')
      → Tracks removed m tm
      → Tracks removed m tm'
  Tracks-others id m tm tm' unused k t = record {
    agrees = λ j. elim (Bool-cases (str_eq id j)) [
      | inr n ↦ let alike = k j n in rw (alike.state, alike.direction) (t.agrees j)
      | inl n ↦
          let out : lookup j m.sessions ≡ none =
            subst (λ i. lookup i m.sessions ≡ none) ((str_eq_iff id j).0 n) unused in
          rw out (no_session (shown j tm') (facing j tm'))
    ];
  }
