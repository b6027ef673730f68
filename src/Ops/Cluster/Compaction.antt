-- ===== src/Ops/Cluster/Compaction.antt =====
-- What a compaction leaves of the history.
use Prim.Native.String
use etcdmonitor.Prelude.{
  ℕ, zero, suc, ◌+◌, ◌-◌, ◌<◌, ◌≡◌, refl, sym, ap, ◌∙◌, String, Bool, false, Option, none, some,
  Result, ok, err, Bool-cases, inl, inr, leb, ℤ, pos, negsuc, arith,
}
use etcdmonitor.Health.{HealthError}
use etcdmonitor.Ops.{
  OpsEnv, OpsState, OpsAnswer, OpsBody, compacted, reply, client, get_username, ended, log_ops,
  failure,
}
use etcdmonitor.Ops.Etcd.{OpsStatus}
use etcdmonitor.Ops.Cluster.{cluster_status, compact_to, compact_from, compact_on, handle_compact}

module _ {W : Type 0} (env : OpsEnv W) where
  -- A compaction that was done: of the revisions up to `current`, at least one is compacted and the
  -- last ones, as many as asked for, are kept.
  pub record Compacted (retain : ℕ) (physical : Bool) (s : OpsState W) (r : OpsAnswer env)
      : Type 0 where
    pub current : ℕ
    pub target : ℕ
    pub status_is :
        (status : OpsStatus) × (cluster_status env s ≡ ok status) × (status.revision ≡ current)
    pub some_gone : 0 < target
    pub kept : target + retain ≡ current
    pub answer : r.0 ≡ reply 200 (compacted current target)
    pub done_on : r.1.world ≡ (env.etcd.compact (client env) target physical s.world).1

  ended-200 :
      (username op target params what : String) (body : OpsBody) (r : Result String (Unit {0}))
      (s : OpsState W)
      → (ended env username op target params what body r s).0.status ≡ 200
      → ((ended env username op target params what body r s).0 ≡ reply 200 body)
        × ((ended env username op target params what body r s).1.world ≡ s.world)
  unfolding ended log_ops
  ended-200 username op target params what body (err e) s h = absurd (omega (arith, h))
  ended-200 username op target params what body (ok u) s h = (refl, refl)

  compact_from-Compacted :
      (username : String) (retain : ℕ) (physical : Bool) (r : Result (HealthError String) OpsStatus)
      (s : OpsState W)
      → cluster_status env s ≡ r
      → (compact_from env username retain physical r s).0.status ≡ 200
      → Compacted retain physical s (compact_from env username retain physical r s)
  unfolding compact_from compact_to
  compact_from-Compacted username retain physical (err e) s q h = absurd (omega (arith, h))
  compact_from-Compacted username retain physical (ok r) s q h =
      let t = r.revision - retain in
      let c = env.etcd.compact (client env) t physical s.world in
      elim (Bool-cases (leb r.revision retain)) [
        | inl b ↦ absurd (omega (arith, rw b at h))
        | inr b ↦
            let e =
              ended-200 username "compact" "cluster" _ "compact failed: " (compacted r.revision t)
                c.0 (record s { world = c.1 }) (rw b at h) in
            rw b (record {
              current = r.revision;
              target = t;
              status_is = (r, q, refl);
              some_gone = room r.revision b;
              kept = adds_up r.revision b;
              answer = e.0;
              done_on = e.1;
            })
      ]
    where
      room : (n : ℕ) → leb n retain ≡ false → 0 < n - retain
      room n b = ground (arith, b)

      adds_up : (n : ℕ) → leb n retain ≡ false → n - retain + retain ≡ n
      adds_up n b = ground (arith, b)

  by_client :
      (username params : String) (retain : ℕ) (physical : Bool) (o : Option String) (s : OpsState W)
      (r : OpsAnswer env)
      → r ≡ elim o [
        | some e ↦
            failure env 500 username "compact" "cluster" params
              (String.◌++◌ "create etcd client: " e)
              0
              s
        | none ↦ compact_on env username retain physical s
      ]
      → r.0.status ≡ 200
      → Compacted retain physical s r
  unfolding compact_on
  by_client username params retain physical (some e) s r q h =
      absurd (omega (arith, sym (ap (λ (x : OpsAnswer env). x.0.status) q) ∙ h))
  by_client username params retain physical none s r q h = rw q (
      compact_from-Compacted username retain physical (cluster_status env s) s refl
        (ap (λ (x : OpsAnswer env). x.0.status) (sym q) ∙ h))

  -- A compaction is answered 200 only where at least one revision was asked to be kept, fewer than
  -- the cluster's current revision, and etcd was told to compact at the revision that leaves that
  -- many after it.
  pub handle_compact-Compacted :
      (body : Option (ℤ × Bool)) (s : OpsState W)
      → (handle_compact env body s).0.status ≡ 200
      → (n : ℕ) × (physical : Bool) × (body ≡ some (pos (suc n), physical))
        × Compacted (suc n) physical s (handle_compact env body s)
  unfolding handle_compact get_username
  handle_compact-Compacted none s h = absurd (omega (arith, h))
  handle_compact-Compacted (some (negsuc n, physical)) s h = absurd (omega (arith, h))
  handle_compact-Compacted (some (pos zero, physical)) s h = absurd (omega (arith, h))
  handle_compact-Compacted (some (pos (suc n), physical)) s h =
      let who = get_username env s in
      let c =
        by_client who.0 _ (suc n) physical (env.etcd.new_client (client env)) who.1
          (handle_compact env (some (pos (suc n), physical)) s) refl h in
      (
        n,
        physical,
        refl,
        record {
          current = c.current;
          target = c.target;
          status_is = c.status_is;
          some_gone = c.some_gone;
          kept = c.kept;
          answer = c.answer;
          done_on = c.done_on;
        },
      )
