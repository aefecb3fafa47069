-- ===== src/Tests/Endings.antt =====
-- Runs of the DAG of the pipeline, and how they end.
use fineract_analytics_platf.Prelude.{
  ◌≡◌, refl, inl, inr, Bool, true, false, none, some, List, [], ◌∷◌, All, any, all, str_eq,
  if◌then◌else◌,
}
use fineract_analytics_platf.Prelude.Int.{pos}
use fineract_analytics_platf.Airflow.Dag.{
  TriggerRule, all_success, all_done, none_failed_min_one_success, Task, ingest,
  wait_for_cdc_to_catch_up, dbt_deps, dbt_seed, dbt_run_staging, dbt_run_intermediate,
  dbt_run_marts, dbt_run_ml, publish_pipeline_metrics, data_quality_gate, finish, dag,
  load_and_transform, test_and_publish, ingest_chain, last_of,
}
use fineract_analytics_platf.Airflow.Metrics.{
  DagRun, aware, publish_metrics, minus, data_quality_gate-blocked,
}
use fineract_analytics_platf.Airflow.Runs.{
  State, success, failed, upstream_failed, skipped, IsBroken, Some, IsSuccess, Scheduler,
  finish-regardless,
}

abbrev is_broken : State → Bool
is_broken failed = true
is_broken upstream_failed = true
is_broken _ = false

abbrev is_success : State → Bool
is_success success = true
is_success _ = false

abbrev ends : TriggerRule → List State → State → State
ends all_done ups own = own
ends all_success ups own =
    if any is_broken ups then upstream_failed else if all is_success ups then own else skipped
ends none_failed_min_one_success ups own =
    if any is_broken ups then upstream_failed else if any is_success ups then own else skipped

no_break :
    (ups : List State)
    → All IsSuccess ups
    → (any is_broken ups ≡ false) × (all is_success ups ≡ true)
no_break [] h = (refl, refl)
no_break (u ∷ us) h = rw (h.0) (no_break us h.1)

Some-break : (ups : List State) → Some IsBroken ups → any is_broken ups ≡ true
Some-break [] h = elim h [ ]
Some-break (failed ∷ us) h = refl
Some-break (upstream_failed ∷ us) h = refl
Some-break (success ∷ us) (inl h) = elim h [ ]
Some-break (success ∷ us) (inr h) = Some-break us h
Some-break (skipped ∷ us) (inl h) = elim h [ ]
Some-break (skipped ∷ us) (inr h) = Some-break us h

unbroken : (ups : List State) → All (λ s. IsBroken s → ⊥) ups → any is_broken ups ≡ false
unbroken [] h = refl
unbroken (failed ∷ us) h = absurd (h.0 tt)
unbroken (upstream_failed ∷ us) h = absurd (h.0 tt)
unbroken (success ∷ us) h = unbroken us h.1
unbroken (skipped ∷ us) h = unbroken us h.1

Some-success : (ups : List State) → Some IsSuccess ups → any is_success ups ≡ true
Some-success [] h = elim h [ ]
Some-success (u ∷ us) (inl h) = rw h
Some-success (success ∷ us) (inr h) = refl
Some-success (failed ∷ us) (inr h) = Some-success us h
Some-success (upstream_failed ∷ us) (inr h) = Some-success us h
Some-success (skipped ∷ us) (inr h) = Some-success us h

abbrev scheduler : Scheduler
scheduler = record {
  ends = ends;
  all_done-runs = λ ups own. refl;
  all_success-runs = λ ups own h. let k = no_break ups h in rw (k.0, k.1);
  all_success-blocked = λ ups own h. rw (Some-break ups h);
  min_one-runs = λ ups own h k. rw (unbroken ups h, Some-success ups k);
  min_one-blocked = λ ups own h. rw (Some-break ups h);
}

-- The first entity fails, and nothing is loaded or transformed; the metrics are not published either.
abbrev own : Task → State
own (ingest e) = failed
own publish_pipeline_metrics = failed
own _ = success

abbrev state : Task → State
state (ingest e) = if str_eq e "offices" then failed else upstream_failed
state wait_for_cdc_to_catch_up = upstream_failed
state dbt_deps = upstream_failed
state dbt_seed = upstream_failed
state dbt_run_staging = upstream_failed
state dbt_run_intermediate = upstream_failed
state dbt_run_marts = upstream_failed
state dbt_run_ml = upstream_failed
state publish_pipeline_metrics = failed
state data_quality_gate = upstream_failed
state finish = upstream_failed
state _ = success

-- All goes well but the publication of the metrics, while the run goes on.
abbrev own_results : Task → State
own_results publish_pipeline_metrics = failed
own_results _ = success

abbrev results : Task → State
results publish_pipeline_metrics = failed
results data_quality_gate = upstream_failed
results finish = upstream_failed
results _ = success

abbrev running : DagRun
running = record { start_date = some (aware (pos 0)); end_date = none; task_instances = [] }

data_quality_gate-blocked_example :
    (results data_quality_gate ≡ upstream_failed) × (results finish ≡ upstream_failed)
unfolding dag load_and_transform test_and_publish ingest_chain last_of publish_metrics minus
data_quality_gate-blocked_example =
    data_quality_gate-blocked scheduler own_results results
      (
        refl,
        (
          refl,
          (
            refl,
            (
              refl,
              (
                refl,
                (
                  refl,
                  (
                    refl,
                    (
                      refl,
                      (
                        refl,
                        (
                          refl,
                          (
                            refl,
                            (
                              refl,
                              (
                                refl,
                                (
                                  refl,
                                  (
                                    refl,
                                    (
                                      refl,
                                      (
                                        refl,
                                        (
                                          refl,
                                          (
                                            refl,
                                            (
                                              refl,
                                              (refl, (refl, (refl, (refl, (refl, (refl, tt)))))),
                                            ),
                                          ),
                                        ),
                                      ),
                                    ),
                                  ),
                                ),
                              ),
                            ),
                          ),
                        ),
                      ),
                    ),
                  ),
                ),
              ),
            ),
          ),
        ),
      )
      (λ n. n) (pos 5) (pos 6) (pos 0) running refl refl refl

finish-regardless_example :
    (state data_quality_gate ≡ results data_quality_gate) × (state finish ≡ results finish)
unfolding dag load_and_transform test_and_publish ingest_chain last_of
finish-regardless_example =
    finish-regardless scheduler own own_results state results
      (
        refl,
        (
          refl,
          (
            refl,
            (
              refl,
              (
                refl,
                (
                  refl,
                  (
                    refl,
                    (
                      refl,
                      (
                        refl,
                        (
                          refl,
                          (
                            refl,
                            (
                              refl,
                              (
                                refl,
                                (
                                  refl,
                                  (
                                    refl,
                                    (
                                      refl,
                                      (
                                        refl,
                                        (
                                          refl,
                                          (
                                            refl,
                                            (
                                              refl,
                                              (refl, (refl, (refl, (refl, (refl, (refl, tt)))))),
                                            ),
                                          ),
                                        ),
                                      ),
                                    ),
                                  ),
                                ),
                              ),
                            ),
                          ),
                        ),
                      ),
                    ),
                  ),
                ),
              ),
            ),
          ),
        ),
      )
      (
        refl,
        (
          refl,
          (
            refl,
            (
              refl,
              (
                refl,
                (
                  refl,
                  (
                    refl,
                    (
                      refl,
                      (
                        refl,
                        (
                          refl,
                          (
                            refl,
                            (
                              refl,
                              (
                                refl,
                                (
                                  refl,
                                  (
                                    refl,
                                    (
                                      refl,
                                      (
                                        refl,
                                        (
                                          refl,
                                          (
                                            refl,
                                            (
                                              refl,
                                              (refl, (refl, (refl, (refl, (refl, (refl, tt)))))),
                                            ),
                                          ),
                                        ),
                                      ),
                                    ),
                                  ),
                                ),
                              ),
                            ),
                          ),
                        ),
                      ),
                    ),
                  ),
                ),
              ),
            ),
          ),
        ),
      )
      refl refl refl refl
