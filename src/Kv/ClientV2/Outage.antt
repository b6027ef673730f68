-- ===== src/Kv/ClientV2/Outage.antt =====
-- The v2 client of the default cluster once it counts as not available.
use etcdmonitor.Prelude.{
  ◌≡◌, refl, ap, subst, sym, ◌∙◌, String, Bool, true, false, Option, none, Result, ok, err,
  if◌then◌else◌, arith,
}
use etcdmonitor.Kv.Client.{ClientConfig}
use etcdmonitor.Kv.ClientV2.{
  EtcdV2, ClientV2, V2Error, V2Node, keys_client, api_of, after_failure, probed, connected,
  connect_v2,
}

-- The client of the default cluster, not available
pub record Down (c : ClientV2) : Type 0 where
  pub of_default : c.override ≡ none
  pub off : c.available ≡ false

-- Whether a call reports an error
abbrev pub is_err : {A : Type 0} → Result String A → Bool
is_err (err e) = true
is_err (ok a) = false

module _ {W : Type 0} (etcd : EtcdV2 W) where
  probed-Down :
      (c : ClientV2) (r : Result V2Error (Option V2Node))
      → c.override ≡ none
      → is_err (probed etcd c r).0 ≡ true
      → Down (probed etcd c r).1
  unfolding probed after_failure
  probed-Down c (ok n) of_default h = absurd cc
  probed-Down c (err e) of_default h =
      subst Down (sym (ap (after_failure etcd c) of_default))
        (record { of_default = of_default; off = refl })

  no_api : (c : ClientV2) (e : String) → c.override ≡ none → keys_client etcd c ≡ err e → Down c
  unfolding keys_client api_of
  no_api c e of_default h =
      let q : (if c.available then ok c.default_client else err "etcd v2 API is not available")
          ≡ err e =
        sym (ap (api_of etcd c) of_default) ∙ h in
      record { of_default = of_default; off = ground (arith, q) }

  connected-Down :
      (c : ClientV2) (r : Result String ClientConfig) (w : W)
      → keys_client etcd c ≡ r
      → c.override ≡ none
      → is_err (connected etcd c r w).0 ≡ true
      → Down (connected etcd c r w).1
  unfolding connected
  connected-Down c (err e) w q of_default h = no_api c e of_default q
  connected-Down c (ok config) w q of_default h =
      probed-Down c (etcd.get config false c.separator w) of_default h

  -- A connect of the default cluster that fails leaves its client down, and down it stays.
  pub connect_v2-Down :
      (c : ClientV2) (w : W)
      → c.override ≡ none
      → is_err (connect_v2 etcd c w).0 ≡ true
      → Down (connect_v2 etcd c w).1
  unfolding connect_v2
  connect_v2-Down c w of_default h = connected-Down c (keys_client etcd c) w refl of_default h

  off_api : (c : ClientV2) → Down c → keys_client etcd c ≡ err "etcd v2 API is not available"
  unfolding keys_client api_of
  off_api c d =
      ap (api_of etcd c) d.of_default
      ∙ ap (λ (b : Bool). if b then ok c.default_client else err "etcd v2 API is not available")
          d.off

  pub connect_v2-off :
      (c : ClientV2) (w : W)
      → Down c
      → connect_v2 etcd c w ≡ (err "etcd v2 API is not available", c)
  unfolding connect_v2 connected
  connect_v2-off c w d = ap (λ r. connected etcd c r w) (off_api c d)
