-- ===== src/Content/Race/Solo.antt =====
-- A command that is alone: the machine does what `createCampaign` and `scheduleCampaign` do.
use flo_mimi.Prelude.{
  ℕ, zero, suc, ◌+◌, true, false, [], Option, none, some, ◌≡◌, refl, sym, ap, ◌∙◌, inl, inr, Text,
  codes, same, ◌==◌, if◌then◌else◌, Error, Result, ok, err, quoted, Action, wrapped, continue, pure,
  raise, ◌>>=◌, ◌>>◌, Bool-cases,
}
use flo_mimi.Command.{Command}
use flo_mimi.Content.Schema.{
  Tables, Statement, select_campaign_order, select_next_campaign_order, upsert_campaign,
  seed_campaign_analytics,
}
use flo_mimi.Content.Driver.{Driver, Session, exec, settle, answer}
use flo_mimi.Content.Campaigns.{
  campaign_id_of, campaign_row, order_or_zero, lookup_display_order, next_display_order,
  display_order_of, create_campaign, schedule_campaign,
}
use flo_mimi.Content.Race.{
  Stage, looking, choosing, writing, seeding, stored, failed, settled, call, go_on, creates,
  schedules, advance, is_finished,
}

module _ (driver : Driver) (env : Text) (c : Command) where
  -- The machine on a session, for at most so many calls.
  unfoldable pub solo : ℕ → Stage → Session → Stage × Session
  solo zero stage s = (stage, s)
  solo (suc n) stage s = elim (is_finished stage) [
    | true ↦ (stage, s)
    | false ↦
        let r = advance env c stage (driver.fault s.calls) (driver.now s.calls) s.tables in
        solo n r.0 (record { tables = r.1; calls = s.calls + 1 })
  ]

  solo-stored : (n : ℕ) (s : Session) → solo n stored s ≡ (stored, s)
  unfolding solo
  solo-stored zero s = refl
  solo-stored (suc n) s = refl

  solo-failed : (n : ℕ) (e : Error) (s : Session) → solo n (failed e) s ≡ (failed e, s)
  unfolding solo
  solo-failed zero e s = refl
  solo-failed (suc n) e s = refl

  -- The end of a command as a stage.
  abbrev pub ended : Result (Unit {0}) × Session → Stage × Session
  ended (ok u, s) = (stored, s)
  ended (err e, s) = (failed e, s)

  called : {A : Type 0} → Session → Result A × Tables → Result A × Session
  called s r = (r.0, record { tables = r.1; calls = s.calls + 1 })

  settle-settled :
      {A : Type 0} (r : Result (A × Tables)) (s : Session)
      → settle driver r (record s { calls = s.calls + 1 }) ≡ called s (settled r s.tables)
  unfolding called
  settle-settled (ok (a, t)) s = refl
  settle-settled (err e) s = refl

  answer-call :
      {A : Type 0} (fault : Option Error) (statement : ℕ → Statement A) (s : Session)
      → answer driver fault statement s
        ≡ called s (call fault (driver.now s.calls) statement s.tables)
  unfolding called
  answer-call none statement s = settle-settled (statement (driver.now s.calls) s.tables) s
  answer-call (some e) statement s = refl

  -- One call of the machine against one call of the code, the rest of both being the same.
  go_on-continue :
      {A : Type 0} (n : ℕ) (what : Text) (f : A → Stage) (k : A → Action Session (Unit {0}))
      (s : Session)
      → ((a : A) (s' : Session) → solo n (f a) s' ≡ ended (k a s'))
      → (r : Result A × Tables)
      → (let m = go_on f (wrapped what r) in
          solo n m.0 (record { tables = m.1; calls = s.calls + 1 }))
        ≡ ended (continue k (wrapped what (called s r)))
  unfolding called
  go_on-continue n what f k s rest (ok a, t) = rest a (record { tables = t; calls = s.calls + 1 })
  go_on-continue n what f k s rest (err e, t) = solo-failed n _ _

  called-exec :
      {A : Type 0} (statement : ℕ → Statement A) (s : Session)
      → exec driver statement s
        ≡ called s (call (driver.fault s.calls) (driver.now s.calls) statement s.tables)
  unfolding exec
  called-exec statement s = answer-call (driver.fault s.calls) statement s

  step-exec :
      {A : Type 0} (n : ℕ) (what : Text) (f : A → Stage) (k : A → Action Session (Unit {0}))
      (statement : ℕ → Statement A) (s : Session)
      → ((a : A) (s' : Session) → solo n (f a) s' ≡ ended (k a s'))
      → (let m =
            go_on f (
              wrapped what (call (driver.fault s.calls) (driver.now s.calls) statement s.tables)) in
          solo n m.0 (record { tables = m.1; calls = s.calls + 1 }))
        ≡ ended (continue k (wrapped what (exec driver statement s)))
  step-exec n what f k statement s rest =
      go_on-continue n what f k s rest _
      ∙ ap (λ r. ended (continue k (wrapped what r))) (sym (called-exec statement s))

  continue-pure : (r : Result (Unit {0}) × Session) → continue (λ (u : Unit {0}). pure tt) r ≡ r
  continue-pure (ok u, s) = refl
  continue-pure (err e, s) = refl

  seed : Action Session (Unit {0})
  seed s =
      wrapped (codes "seed campaign analytics")
        (exec driver (λ now. seed_campaign_analytics now env (campaign_id_of c)) s)

  seeding-seed : (n : ℕ) (s : Session) → solo (suc n) seeding s ≡ ended (seed s)
  unfolding solo advance seed
  seeding-seed n s =
      step-exec n _ (λ _. stored) (λ _. pure tt) _ s (λ _ s'. solo-stored n s')
      ∙ ap ended (continue-pure _)

  write : ℕ → Action Session (Unit {0})
  unfolding seed
  write order = do
    λ s.
        wrapped (codes "upsert campaign")
          (exec driver (λ _. upsert_campaign (campaign_row env c order)) s)
    seed

  writing-write :
      (n order : ℕ) (s : Session) → solo (suc (suc n)) (writing order) s ≡ ended (write order s)
  unfolding solo advance write
  writing-write n order s =
      step-exec (suc n) _ (λ _. seeding) (λ _. seed) _ s (λ _ s'. seeding-seed n s')

  choosing-next :
      (n : ℕ) (s : Session)
      → solo (suc (suc (suc n))) choosing s
        ≡ ended (continue write (next_display_order driver (select_next_campaign_order env) s))
  unfolding solo advance next_display_order
  choosing-next n s =
      step-exec (suc (suc n)) _ writing write _ s (λ order s'. writing-write n order s')

  -- Looking up the order is two binds in the code.
  flattened :
      (r : Result (Option ℕ) × Session)
      → continue
          (λ found.
            (if order_or_zero found == 0
              then next_display_order driver (select_next_campaign_order env)
              else pure (order_or_zero found))
            >>= write)
          r
        ≡ continue write (
            continue
              (λ found.
                if found == 0
                then next_display_order driver (select_next_campaign_order env)
                else pure found)
              (continue (λ found. pure (order_or_zero found)) r))
  flattened (ok a, s) = refl
  flattened (err e, s) = refl

  found-solo :
      (order : ℕ) (s : Session)
      → solo 3 (if order == 0 then choosing else writing order) s
        ≡ ended (
            continue write (
              (if order == 0
                  then next_display_order driver (select_next_campaign_order env)
                  else pure order)
                s))
  found-solo order s = elim (Bool-cases (order == 0)) [
    | inl z ↦ rw z (choosing-next 0 s)
    | inr z ↦ rw z (writing-write 1 order s)
  ]

  looking-create :
      (s : Session)
      → solo 4 looking s
        ≡ ended (
            continue write (
              display_order_of driver
                (select_campaign_order env (campaign_id_of c))
                (select_next_campaign_order env)
                s))
  unfolding solo advance display_order_of lookup_display_order
  looking-create s =
      step-exec 3 _ _
        (λ found.
          (if order_or_zero found == 0
            then next_display_order driver (select_next_campaign_order env)
            else pure (order_or_zero found))
          >>= write)
        _ s (λ found s'. found-solo (order_or_zero found) s')
      ∙ ap ended (
          flattened (
            wrapped (codes "lookup display order")
              (exec driver (λ _. select_campaign_order env (campaign_id_of c)) s)))

  -- Alone, the machine of a brief ends after four calls at most, as `createCampaign` does: with the
  -- same tables, the same calls made, and the same error, if any.
  pub solo-create_campaign :
      (s : Session) → solo 4 (creates env c) s ≡ ended (create_campaign driver env c s)
  unfolding creates create_campaign write seed
  solo-create_campaign s = elim (Bool-cases (same (campaign_id_of c) [])) [
    | inl e ↦ rw e (solo-failed 4 _ s)
    | inr e ↦ rw e (looking-create s)
  ]

  scheduled_end :
      (rows : ℕ) (s : Session)
      → solo 0
          (if rows == 0
            then failed (quoted (codes "campaign ") (campaign_id_of c) (codes " was not found"))
            else stored)
          s
        ≡ ended (
            (if rows == 0
                then raise (quoted (codes "campaign ") (campaign_id_of c) (codes " was not found"))
                else pure tt)
              s)
  unfolding solo
  scheduled_end rows s = elim (Bool-cases (rows == 0)) [ inl z ↦ rw z refl | inr z ↦ rw z refl ]

  -- Alone, the machine of a scheduling ends after one call at most, as `scheduleCampaign` does.
  pub solo-schedule_campaign :
      (s : Session) → solo 1 (schedules env c) s ≡ ended (schedule_campaign driver env c s)
  unfolding schedules schedule_campaign solo advance
  solo-schedule_campaign s = elim (Bool-cases (same (campaign_id_of c) [])) [
    | inl e ↦ rw e refl
    | inr e ↦ rw e (step-exec 0 _ _ _ _ s (λ rows s'. scheduled_end rows s'))
  ]
