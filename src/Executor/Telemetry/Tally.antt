-- ===== src/Executor/Telemetry/Tally.antt =====
-- The telemetry of a run of events, against tallies of these events.
use mathlib.Core.List.{append-nil, append_assoc}
use scalp_bot_os.Base.{
  last_of, drop-append, last_of_fits, last_of-last_of, ℕ, suc, ◌+◌, ◌-◌, ◌≤◌, ltb, if◌then◌else◌,
  ◌≡◌, refl, sym, ap, subst, ◌∙◌, List, [], ◌∷◌, ◌++◌, length, drop, length-append, length-drop,
  Text, text_eq, text_eq_iff, Float, Bool-cases, inl, inr, arith,
}
use scalp_bot_os.Base.Dict.{lookup, lookup-insert}
use scalp_bot_os.Model.Types.{OrderRequest, Position}
use scalp_bot_os.Executor.Tracker.{CloseEvent}
use scalp_bot_os.Executor.Telemetry.{
  ExecutionRecord, TelemetryTracker, reason_text, counted, keep_record, record_rejection,
  telemetry_close, new_telemetry_tracker, execution_record, telemetry_fill,
}

pub data TelemetryEvent (F : Type 0) : Type 0 where
  filled : OrderRequest F → Position F → ℕ → ℕ → TelemetryEvent F
  rejected : TelemetryEvent F
  closed : CloseEvent F → TelemetryEvent F

module _ {F : Type 0} where
  unfoldable pub rejections : List (TelemetryEvent F) → ℕ
  rejections [] = 0
  rejections (filled order fill_pos latency now ∷ es) = rejections es
  rejections (rejected ∷ es) = suc (rejections es)
  rejections (closed ce ∷ es) = rejections es

  -- The closes with a reason.
  unfoldable pub closes_for : Text → List (TelemetryEvent F) → ℕ
  closes_for key [] = 0
  closes_for key (filled order fill_pos latency now ∷ es) = closes_for key es
  closes_for key (rejected ∷ es) = closes_for key es
  closes_for key (closed ce ∷ es) =
      (if text_eq (reason_text ce.reason) key then 1 else 0) + closes_for key es

  unfoldable pub closes : List (TelemetryEvent F) → ℕ
  closes [] = 0
  closes (filled order fill_pos latency now ∷ es) = closes es
  closes (rejected ∷ es) = closes es
  closes (closed ce ∷ es) = suc (closes es)

module _ {F : Type 0} ⦃f : Float F⦄ where
  unfoldable pub telemetry_step : TelemetryTracker F → TelemetryEvent F → TelemetryTracker F
  telemetry_step t (filled order fill_pos latency now) = telemetry_fill t order fill_pos latency now
  telemetry_step t rejected = record_rejection t
  telemetry_step t (closed ce) = telemetry_close t ce

  unfoldable pub telemetry_run : TelemetryTracker F → List (TelemetryEvent F) → TelemetryTracker F
  telemetry_run t [] = t
  telemetry_run t (e ∷ es) = telemetry_run (telemetry_step t e) es

  unfoldable pub fills : List (TelemetryEvent F) → List (ExecutionRecord F)
  fills [] = []
  fills (filled order fill_pos latency now ∷ es) =
      execution_record order fill_pos latency now ∷ fills es
  fills (rejected ∷ es) = fills es
  fills (closed ce ∷ es) = fills es

  -- What a tracker that began with some counts holds after events.
  record IsTally (t after : TelemetryTracker F) (es : List (TelemetryEvent F)) : Type 0 where
    records_eq : after.records ≡ last_of 1024 (t.records ++ fills es)
    filled_eq : after.total_filled ≡ t.total_filled + length (fills es)
    rejected_eq : after.total_rejected ≡ t.total_rejected + rejections es
    closed_eq :
        after.total_partial_closes + after.total_full_closes
        ≡ t.total_partial_closes + t.total_full_closes + closes es
    reasons_eq :
        (key : Text)
        → counted (lookup key after.close_reasons)
          ≡ counted (lookup key t.close_reasons) + closes_for key es

  telemetry_close_reasons :
      (t : TelemetryTracker F) (ce : CloseEvent F) (key : Text)
      → counted (lookup key (telemetry_close t ce).close_reasons)
        ≡ counted (lookup key t.close_reasons)
          + (if text_eq (reason_text ce.reason) key then 1 else 0)
  unfolding telemetry_close
  telemetry_close_reasons t ce key =
      let k = reason_text ce.reason in
      ground (
        arith,
        text_eq_iff k key,
        lookup-insert k key (suc (counted (lookup k t.close_reasons))) t.close_reasons,
      )

  telemetry_close_records :
      (t : TelemetryTracker F) (ce : CloseEvent F) → (telemetry_close t ce).records ≡ t.records
  unfolding telemetry_close
  telemetry_close_records t ce = refl

  telemetry_close_filled :
      (t : TelemetryTracker F) (ce : CloseEvent F)
      → (telemetry_close t ce).total_filled ≡ t.total_filled
  unfolding telemetry_close
  telemetry_close_filled t ce = refl

  telemetry_close_rejected :
      (t : TelemetryTracker F) (ce : CloseEvent F)
      → (telemetry_close t ce).total_rejected ≡ t.total_rejected
  unfolding telemetry_close
  telemetry_close_rejected t ce = refl

  telemetry_close_counts :
      (t : TelemetryTracker F) (ce : CloseEvent F)
      → (telemetry_close t ce).total_partial_closes + (telemetry_close t ce).total_full_closes
        ≡ suc (t.total_partial_closes + t.total_full_closes)
  unfolding telemetry_close
  telemetry_close_counts t ce = ground arith

  keep_record-last_of :
      (records : List (ExecutionRecord F)) (rec : ExecutionRecord F)
      → length records ≤ 1024
      → keep_record records rec ≡ last_of 1024 (records ++ (rec ∷ []))
  unfolding keep_record
  keep_record-last_of records rec l =
      let more = length-append records (rec ∷ []) in
      elim (Bool-cases (ltb (length records) 1024)) [
        | inl e ↦
            let none_dropped : 0 ≡ length (records ++ (rec ∷ [])) - 1024 =
              ground (arith, e, more) in
            rw e (ap (λ n. drop n (records ++ (rec ∷ []))) none_dropped)
        | inr e ↦
            let one_dropped : 1 ≡ length (records ++ (rec ∷ [])) - 1024 =
              ground (arith, e, l, more) in
            rw e (
              sym (drop-append 1 records (rec ∷ []) (ground (arith, e)))
              ∙ ap (λ n. drop n (records ++ (rec ∷ []))) one_dropped)
      ]

  -- The records after a fill and more fills.
  fill_records :
      (records : List (ExecutionRecord F)) (rec : ExecutionRecord F)
      (later : List (ExecutionRecord F))
      → length records ≤ 1024
      → last_of 1024 (keep_record records rec ++ later) ≡ last_of 1024 (records ++ (rec ∷ later))
  fill_records records rec later l =
      ap (λ rs. last_of 1024 (rs ++ later)) (keep_record-last_of records rec l)
      ∙ (last_of-last_of 1024 (records ++ (rec ∷ [])) later
          ∙ ap (λ rs. last_of 1024 rs) (append_assoc records (rec ∷ []) later))

  length-keep_record :
      (records : List (ExecutionRecord F)) (rec : ExecutionRecord F)
      → length records ≤ 1024
      → length (keep_record records rec) ≤ 1024
  length-keep_record records rec l =
      let more = records ++ (rec ∷ []) in
      omega (
        arith,
        ap length (keep_record-last_of records rec l),
        length-drop (length more - 1024) more,
      )

  telemetry_run-IsTally :
      (t : TelemetryTracker F) (es : List (TelemetryEvent F))
      → length t.records ≤ 1024
      → IsTally t (telemetry_run t es) es
  unfolding telemetry_run telemetry_step fills rejections closes closes_for record_rejection
      telemetry_fill
  telemetry_run-IsTally t [] l = record {
    records_eq =
        sym (ap (λ rs. last_of 1024 rs) (append-nil t.records) ∙ last_of_fits 1024 t.records l);
    filled_eq = omega arith;
    rejected_eq = omega arith;
    closed_eq = omega arith;
    reasons_eq = λ key. omega arith;
  }
  telemetry_run-IsTally t (filled order fill_pos latency now ∷ es) l =
      let rec = execution_record order fill_pos latency now in
      let h =
        telemetry_run-IsTally (telemetry_fill t order fill_pos latency now) es
          (length-keep_record t.records rec l) in
      record {
        records_eq = h.records_eq ∙ fill_records t.records rec (fills es) l;
        filled_eq = omega (arith, h.filled_eq);
        rejected_eq = h.rejected_eq;
        closed_eq = h.closed_eq;
        reasons_eq = h.reasons_eq;
      }
  telemetry_run-IsTally t (rejected ∷ es) l =
      let h = telemetry_run-IsTally (record_rejection t) es l in
      record {
        records_eq = h.records_eq;
        filled_eq = h.filled_eq;
        rejected_eq = omega (arith, h.rejected_eq);
        closed_eq = h.closed_eq;
        reasons_eq = h.reasons_eq;
      }
  telemetry_run-IsTally t (closed ce ∷ es) l =
      let h =
        telemetry_run-IsTally (telemetry_close t ce) es
          (subst (λ rs. length rs ≤ 1024) (sym (telemetry_close_records t ce)) l) in
      record {
        records_eq =
            h.records_eq ∙ ap (λ rs. last_of 1024 (rs ++ fills es)) (telemetry_close_records t ce);
        filled_eq = h.filled_eq ∙ ap (λ n. n + length (fills es)) (telemetry_close_filled t ce);
        rejected_eq = h.rejected_eq ∙ ap (λ n. n + rejections es) (telemetry_close_rejected t ce);
        closed_eq = omega (arith, h.closed_eq, telemetry_close_counts t ce);
        reasons_eq = λ key. omega (arith, h.reasons_eq key, telemetry_close_reasons t ce key);
      }

  -- After any events a new tracker has kept the records of the last 1,024 fills in their order, and
  -- has counted the fills, the rejections, the closes of both kinds together, and for each reason its
  -- closes.
  pub telemetry_run_counts :
      (es : List (TelemetryEvent F)) (key : Text)
      → let t = telemetry_run new_telemetry_tracker es in
        (t.records ≡ last_of 1024 (fills es))
        × (t.total_filled ≡ length (fills es))
        × (t.total_rejected ≡ rejections es)
        × (t.total_partial_closes + t.total_full_closes ≡ closes es)
        × (counted (lookup key t.close_reasons) ≡ closes_for key es)
  unfolding new_telemetry_tracker lookup
  telemetry_run_counts es key =
      let h = telemetry_run-IsTally new_telemetry_tracker es (omega arith) in
      (
        h.records_eq,
        omega (arith, h.filled_eq),
        omega (arith, h.rejected_eq),
        omega (arith, h.closed_eq),
        omega (arith, h.reasons_eq key),
      )
