-- ===== src/App/Stop.antt =====
-- internal/app/service.go: what the emergency stop does to approvals and dispatches.
use nomadposting.Prelude.{
  ◌+◌, ◌≡◌, ◌≢◌, inl, inr, true, [], Str, ok, arith, Result-cases, Bool-cases,
}
use nomadposting.Store.Tables.{World, exec, fault_now, now}
use nomadposting.Store.Records.{set_emergency_stop}
use nomadposting.App.Service.{
  Service, ApprovedPayload, check_running, check_approval, approve, payload_for_dispatch,
  emergency_stop, stop_reason, stop_kind,
}
use nomadposting.App.Frames.{audit-jobs, check_running_inv, check_running-Unmoved}

module _ {S : Type 0} (s : Service S) where
  -- The flag is set, whether or not the audit entry behind it is written.
  stop_set :
      (reason : Str) (w : World S)
      → (emergency_stop s true reason w).0 ≡ ok tt
      → (emergency_stop s true reason w).1.db.system.emergency_stop ≡ 1
  unfolding emergency_stop now set_emergency_stop exec
  stop_set reason w h = elim (Bool-cases (fault_now w.faults)) [
    | inl f ↦ absurd (ground arith)
    | inr f ↦
        let w' : World S = record w { ticks = w.ticks + 1 } in
        let w'' = (set_emergency_stop true (stop_reason true reason) (w.clock w.ticks) w').1 in
        ground (arith, (audit-jobs s [] (stop_kind true) (stop_reason true reason) w'').1)
  ]

  approve-stopped :
      (id hash : Str) (w : World S)
      → w.db.system.emergency_stop ≡ 1
      → ((approve s id hash w).0 ≢ ok tt) × ((approve s id hash w).1.db ≡ w.db)
  unfolding approve check_approval
  approve-stopped id hash w on = elim (Result-cases (check_running s w).0) [
    | inl (_, e) ↦ (ground arith, ground (arith, check_running-Unmoved s w))
    | inr (tt, e) ↦ absurd (ground (arith, check_running_inv s w e))
  ]

  payload-stopped :
      (id : Str) (w : World S) (p : ApprovedPayload)
      → w.db.system.emergency_stop ≡ 1
      → (payload_for_dispatch s id w).0 ≢ ok p
  unfolding payload_for_dispatch
  payload-stopped id w p on = elim (Result-cases (check_running s w).0) [
    | inl (_, e) ↦ ground arith
    | inr (tt, e) ↦ absurd (ground (arith, check_running_inv s w e))
  ]

  -- Once `EmergencyStop(true, …)` has succeeded, nothing is approved and no content is handed out for
  -- dispatch, for any job, and a refused approval leaves the tables as they were.
  pub emergency_stop_blocks :
      (reason : Str) (w : World S)
      → (emergency_stop s true reason w).0 ≡ ok tt
      → ((id hash : Str)
          → ((approve s id hash (emergency_stop s true reason w).1).0 ≢ ok tt)
            × ((approve s id hash (emergency_stop s true reason w).1).1.db
                ≡ (emergency_stop s true reason w).1.db))
        × ((id : Str) (p : ApprovedPayload)
            → (payload_for_dispatch s id (emergency_stop s true reason w).1).0 ≢ ok p)
  emergency_stop_blocks reason w h =
      let on = stop_set reason w h in
      let w' = (emergency_stop s true reason w).1 in
      (λ id hash. approve-stopped id hash w' on, λ id p. payload-stopped id w' p on)
