-- ===== src/Delivery/Exactly.antt =====
-- The headline on redelivery: every kind of message, in transactions, after whatever else was delivered.
use mathlib.Core.Path.{subst}
use incident_awareness_engin.Delivery.Rows.{
  DeliveryError, several_runs, partition_uncovered, CloseRow, Tables, R1StreamDelivery,
}
use incident_awareness_engin.Delivery.Tables.{
  is_readable, row_to_delivery, close_delivery, fetch, watermark_by_id, is_of_run, close_by_id,
  is_closed, is_storable, insert_row, latest_watermark, known_partitions,
}
use incident_awareness_engin.Delivery.Ledger.{has_content}
use incident_awareness_engin.Delivery.Closing.{
  R1FinalPartitionWatermark, R1RunClosed, save_watermark, match_final, match_all,
  assert_final_watermarks_match, close_row, save_run_close,
}
use incident_awareness_engin.Delivery.Ingress.{
  Digests, R1StreamDeliveryResult, Store, delivery_result, on_tables, accept_watermark, close_run,
  accept_run_closed, StreamMessage, event_chunk, source_watermark, run_closed, accept,
}
use incident_awareness_engin.Delivery.Marks.{SeenClose, save_run_close-cases}
use incident_awareness_engin.Delivery.Append.{SeenAs}
use incident_awareness_engin.Delivery.Growth.{Grows}
use incident_awareness_engin.Delivery.Replay.{
  SeenAs-chunk, SeenAs-watermark, SeenClose-Grows, save_watermark-SeenAs, save_run_close-SeenClose,
}
use incident_awareness_engin.Delivery.Closed.{OfRun, assert_final-rows_of, KnownClose}
use incident_awareness_engin.Delivery.Spool.{deliver}
use incident_awareness_engin.Delivery.Frozen.{Grows-is_closed}
use incident_awareness_engin.Delivery.Transaction.{
  deliver-eq-ok, deliver-Grows, deliver_all, deliver_all-Grows, deliver_all-rows_of,
}
use incident_awareness_engin.Delivery.Once.{
  KnownChunk, accept_chunk-Known, accept_chunk_again, AllReadable, AllReadable-Grows,
  save_watermark_again,
}
use incident_awareness_engin.Delivery.Induct.{close_run-eq-ok}
use incident_awareness_engin.Stream.{partition_key}
use incident_awareness_engin.Prelude.{
  eqb, Bool-cases, Option-cases, string_eq, length, find, set_of, find-passes, any-of_find, Result,
  ok, err, ◌>>=◌, ◌>>◌, raise_if, ok-inj, err_ok, some-inj, none-some, Datetime, String, ◌≡◌, refl,
  sym, ap, ◌∙◌, inl, inr, Bool, true, false, not, ◌&&◌, none, some, List, [], ◌∷◌, ◌++◌, map, arith,
}

readable_of_read :
    (x y : R1StreamDelivery)
    → row_to_delivery (some x) ≡ ok (some y)
    → (x ≡ y) × (is_readable x ≡ true)
unfolding row_to_delivery
readable_of_read x y h = elim (Bool-cases (is_readable x)) [
  | inl e ↦ (some-inj (ok-inj (rw e at h)), e)
  | inr e ↦ absurd (err_ok (rw e at h))
]

none_read : (y : R1StreamDelivery) → row_to_delivery none ≡ ok (some y) → ⊥
unfolding row_to_delivery
none_read y h = none-some (ok-inj h)

same_close :
    (run id sha : String) (r : CloseRow)
    → (is_of_run run r && string_eq.beq id r.close_id) ≡ true
    → has_content (close_delivery r) sha ≡ true
    → close_delivery r ≡ close_delivery (close_row run id sha)
unfolding has_content
same_close run id sha r own same = ground (
  arith,
  string_eq.beq_iff run r.run_id,
  string_eq.beq_iff id r.close_id,
  string_eq.beq_iff r.content_sha256 sha,
)

-- A close that stands in the ledger closes its run, and its row passes the checks.
SeenClose-facts :
    (run id sha : String) (t : Tables)
    → SeenClose run id sha t
    → (is_closed run t ≡ true) × (is_storable (close_delivery (close_row run id sha)) ≡ true)
unfolding close_by_id is_closed is_storable
SeenClose-facts run id sha t (x, found, same) =
    let own = λ (r : CloseRow). is_of_run run r && string_eq.beq id r.close_id in
    elim (Option-cases (find own t.closes)) [
      | inl nothing ↦
          absurd
            (none_read x (ap (λ o. row_to_delivery (fetch close_delivery o)) (sym nothing) ∙ found))
      | inr (r, hit) ↦
          let (is_row, readable) =
            readable_of_read (close_delivery r) x
              (ap (λ o. row_to_delivery (fetch close_delivery o)) (sym hit) ∙ found) in
          let content = ap (λ y. has_content y sha) is_row ∙ same in
          let stored : is_readable (close_delivery (close_row run id sha)) ≡ true =
            ap is_readable (sym (same_close run id sha r (find-passes own t.closes r hit) content))
            ∙ readable in
          (any-of_find own (is_of_run run) t.closes r (λ y h. ground arith) hit, rw stored refl)
    ]

match_all-closes :
    (fs : List R1FinalPartitionWatermark) (t : Tables) (rows : List CloseRow)
    → match_all fs (record t { closes = rows }) ≡ match_all fs t
unfolding match_all latest_watermark
match_all-closes [] t rows = refl
match_all-closes (f ∷ fs) t rows =
    ap (λ x. (latest_watermark (partition_key f.partition) t >>= match_final f) >> x)
      (match_all-closes fs t rows)

assert_final-closes :
    (fs : List R1FinalPartitionWatermark) (t : Tables) (rows : List CloseRow)
    → assert_final_watermarks_match fs (record t { closes = rows })
      ≡ assert_final_watermarks_match fs t
unfolding assert_final_watermarks_match known_partitions
assert_final-closes [] t rows = refl
assert_final-closes (f ∷ fs) t rows =
    ap
      (λ x.
        raise_if
          (not (eqb (length (set_of ⦃e = string_eq⦄ (map (λ g. g.partition.run_id) (f ∷ fs)))) 1))
          several_runs
        >> (x
            >> raise_if
                (not (eqb (length (known_partitions f.partition.run_id t)) (length (f ∷ fs))))
                partition_uncovered))
      (match_all-closes (f ∷ fs) t rows)

close_run-Known :
    (d : Digests) (r : R1RunClosed) (t t' : Tables) (b : Bool)
    → close_run d r t ≡ ok (b, t')
    → KnownClose d r t'
close_run-Known d r t t' b h =
    let sha = d.run_closed_sha256 r in
    let (matched, saved) = close_run-eq-ok d r t t' b h in
    let seen = save_run_close-SeenClose r.run_id r.close_id sha t t' b saved in
    (
      seen,
      (SeenClose-facts r.run_id r.close_id sha t' seen).0,
      elim (save_run_close-cases r.run_id r.close_id sha t t' b saved) [
        | inl (known, same, old) ↦
            ap (assert_final_watermarks_match r.final_watermarks) same ∙ matched
        | inr (first, (rows, open_run, stored)) ↦
            ap (assert_final_watermarks_match r.final_watermarks) rows
            ∙ (assert_final-closes r.final_watermarks t
                  (t.closes ++ close_row r.run_id r.close_id sha ∷ [])
                ∙ matched)
      ],
    )

save_run_close_again :
    (run id sha : String) (t : Tables)
    → SeenClose run id sha t
    → save_run_close run id sha t ≡ ok (false, t)
unfolding save_run_close insert_row is_closed
save_run_close_again run id sha t (x, found, same) =
    let facts = SeenClose-facts run id sha t (x, found, same) in
    rw facts.1 (rw facts.0 (rw (found, save_run_close) (rw same refl)))

close_run_again :
    (d : Digests) (r : R1RunClosed) (t : Tables)
    → KnownClose d r t
    → close_run d r t ≡ ok (false, t)
unfolding close_run
close_run_again d r t (seen, closed, matched) =
    rw matched (save_run_close_again r.run_id r.close_id (d.run_closed_sha256 r) t seen)

-- What `R1RunClosed` checks of its final watermarks, on a close.
abbrev pub IsOwn : StreamMessage → Type 0
IsOwn (event_chunk c) = Unit
IsOwn (source_watermark w) = Unit
IsOwn (run_closed r) = OfRun r.run_id r.final_watermarks

abbrev pub Known : Digests → StreamMessage → Tables → Type 0
Known d (event_chunk c) t = KnownChunk d c t
Known d (source_watermark w) t =
    SeenAs (watermark_by_id (partition_key w.partition) w.watermark_id t) w.watermark_sequence
      (d.watermark_sha256 w)
Known d (run_closed r) t = KnownClose d r t

on_tables-eq-ok :
    (s s' : Store) (call : Result DeliveryError (Bool × Tables)) (r : R1StreamDeliveryResult)
    → on_tables s call ≡ (ok r, s')
    → (b : Bool) × (call ≡ ok (b, s'.tables))
on_tables-eq-ok s s' (err e) r h = absurd (err_ok (ap (λ x. x.0) h))
on_tables-eq-ok s s' (ok (b, t)) r h = (b, ap (λ x. ok (b, x.1.tables)) h)

pub accept-Known :
    (d : Digests) (now : Datetime) (m : StreamMessage) (s s' : Store) (r : R1StreamDeliveryResult)
    → accept d now m s ≡ (ok r, s')
    → Known d m s'.tables
unfolding accept accept_watermark accept_run_closed
accept-Known d now (event_chunk c) s s' r h = accept_chunk-Known d now c s s' r h
accept-Known d now (source_watermark w) s s' r h =
    let (b, saved) = on_tables-eq-ok s s' (save_watermark w (d.watermark_sha256 w) s.tables) r h in
    save_watermark-SeenAs w (d.watermark_sha256 w) s.tables s'.tables b saved
accept-Known d now (run_closed q) s s' r h =
    let (b, saved) = on_tables-eq-ok s s' (close_run d q s.tables) r h in
    close_run-Known d q s.tables s'.tables b saved

pub Known-kept :
    (d : Digests) (m : StreamMessage) (ms : List (Datetime × StreamMessage)) (s : Store)
    → IsOwn m
    → Known d m s.tables
    → Known d m (deliver_all d ms s).tables
Known-kept d (event_chunk c) ms s own (matches, seen) = (
  matches,
  SeenAs-chunk (partition_key c.partition) c.chunk_id c.chunk_sequence (d.chunk_sha256 c) s.tables
      (deliver_all d ms s).tables (deliver_all-Grows d ms s) seen,
)
Known-kept d (source_watermark w) ms s own seen =
    SeenAs-watermark (partition_key w.partition) w.watermark_id w.watermark_sequence
      (d.watermark_sha256 w) s.tables (deliver_all d ms s).tables (deliver_all-Grows d ms s) seen
Known-kept d (run_closed r) ms s own (seen, closed, matched) =
    let t' = (deliver_all d ms s).tables in
    let fs = r.final_watermarks in
    let g = deliver_all-Grows d ms s in
    (
      SeenClose-Grows r.run_id r.close_id (d.run_closed_sha256 r) s.tables t' g seen,
      Grows-is_closed r.run_id s.tables t' g closed,
      sym (assert_final-rows_of r.run_id fs t' own)
          ∙ (ap (assert_final_watermarks_match fs) (deliver_all-rows_of r.run_id d ms s closed)
              ∙ (assert_final-rows_of r.run_id fs s.tables own ∙ matched)),
    )

pub accept-of_Known :
    (d : Digests) (now : Datetime) (m : StreamMessage) (s : Store)
    → AllReadable s.tables
    → Known d m s.tables
    → accept d now m s ≡ (ok (delivery_result false []), s)
unfolding accept accept_watermark accept_run_closed
accept-of_Known d now (event_chunk c) s readable known = accept_chunk_again d now c s known
accept-of_Known d now (source_watermark w) s readable known =
    ap (on_tables s) (save_watermark_again w (d.watermark_sha256 w) s.tables readable known)
accept-of_Known d now (run_closed r) s readable known =
    ap (on_tables s) (close_run_again d r s.tables known)

pub deliver-of_Known :
    (d : Digests) (now : Datetime) (m : StreamMessage) (s : Store)
    → accept d now m s ≡ (ok (delivery_result false []), s)
    → deliver d now m s ≡ (ok (delivery_result false []), s)
unfolding deliver
deliver-of_Known d now m s h =
    let returned = ap (λ x. x.0) h in
    rw (returned, deliver) (ap (λ x. (ok (delivery_result false []), x.1)) h)

-- Exactly once. Where a ledger's watermark rows can be read, and a close names watermarks of its own run
-- only: a message whose call returned can be delivered again at any later time, whatever was delivered
-- in between and whether those calls returned or were rolled back. The call returns `duplicate` with no
-- new Event, and changes nothing.
pub deliver_again :
    (d : Digests) (now later : Datetime) (m : StreamMessage) (ms : List (Datetime × StreamMessage))
    (s s' : Store) (r : R1StreamDeliveryResult)
    → AllReadable s.tables
    → IsOwn m
    → deliver d now m s ≡ (ok r, s')
    → deliver d later m (deliver_all d ms s') ≡ (ok (delivery_result false []), deliver_all d ms s')
deliver_again d now later m ms s s' r readable own h =
    let s'' = deliver_all d ms s' in
    let grown_once : Grows s.tables s'.tables =
      subst (λ x. Grows s.tables x) (ap (λ x. x.1.tables) h) (deliver-Grows d now m s) in
    let readable' = AllReadable-Grows s.tables s'.tables grown_once readable in
    deliver-of_Known d later m s'' (
      accept-of_Known d later m s''
        (AllReadable-Grows s'.tables s''.tables (deliver_all-Grows d ms s') readable')
        (Known-kept d m ms s' own (accept-Known d now m s s' r (deliver-eq-ok d now m s s' r h))))
