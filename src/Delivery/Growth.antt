-- ===== src/Delivery/Growth.antt =====
-- The ledger is append-only: whatever a message is and whether its call returns or raises, no row is
-- changed or lost.
use mathlib.Core.List.{append-nil, append_assoc}
use incident_awareness_engin.Delivery.Rows.{ChunkRow, EventRow, WatermarkRow, CloseRow, Tables}
use incident_awareness_engin.Delivery.Ledger.{chunk_row, event_row}
use incident_awareness_engin.Delivery.Closing.{watermark_row, close_row}
use incident_awareness_engin.Delivery.Ingress.{Digests, Store, StreamMessage, accept}
use incident_awareness_engin.Delivery.Marks.{IsReadable, WroteWatermark, WroteClose}
use incident_awareness_engin.Delivery.Append.{WroteChunk}
use incident_awareness_engin.Delivery.Induct.{Keeps, accept_inv}
use incident_awareness_engin.Stream.{R1SourceWatermark, PartitionKey}
use incident_awareness_engin.Prelude.{
  All, All-append, Datetime, ℕ, String, ◌≡◌, refl, ap, ◌∙◌, List, [], ◌∷◌, ◌++◌,
}

-- The tables with these rows behind them.
abbrev pub grown :
    Tables → List ChunkRow → List EventRow → List WatermarkRow → List CloseRow → Tables
grown t cs es ws rs = record {
  chunks = t.chunks ++ cs;
  events = t.events ++ es;
  watermarks = t.watermarks ++ ws;
  closes = t.closes ++ rs;
  position_closes = t.position_closes;
}

pub record Grows (t t' : Tables) : Type 0 where
  pub new_chunks : List ChunkRow
  pub new_events : List EventRow
  pub new_watermarks : List WatermarkRow
  pub new_closes : List CloseRow
  pub are_readable : All IsReadable new_watermarks
  pub is_grown : t' ≡ grown t new_chunks new_events new_watermarks new_closes

pub Grows-self : (t t' : Tables) → t' ≡ t → Grows t t'
Grows-self t t' h = record {
  new_chunks = [];
  new_events = [];
  new_watermarks = [];
  are_readable = tt;
  new_closes = [];
  is_grown = h ∙ simp (append-nil);
}

pub Grows-trans : (t t' t'' : Tables) → Grows t t' → Grows t' t'' → Grows t t''
Grows-trans t t' t'' g h = record {
  new_chunks = g.new_chunks ++ h.new_chunks;
  new_events = g.new_events ++ h.new_events;
  new_watermarks = g.new_watermarks ++ h.new_watermarks;
  new_closes = g.new_closes ++ h.new_closes;
  are_readable =
      All-append IsReadable g.new_watermarks h.new_watermarks g.are_readable h.are_readable;
  is_grown =
      h.is_grown
      ∙ (ap (λ x. grown x h.new_chunks h.new_events h.new_watermarks h.new_closes) g.is_grown
          ∙ simp (append_assoc));
}

append_event-Grows :
    (p : PartitionKey) (id sha : String) (t : Tables)
    → Grows t (record t { events = t.events ++ event_row p id sha ∷ [] })
append_event-Grows p id sha t = record {
  new_chunks = [];
  new_events = event_row p id sha ∷ [];
  new_watermarks = [];
  are_readable = tt;
  new_closes = [];
  is_grown = simp (append-nil);
}

append_chunk-Grows :
    (p : PartitionKey) (id : String) (n : ℕ) (sha : String) (t t' : Tables)
    → WroteChunk p id n sha t t'
    → Grows t t'
append_chunk-Grows p id n sha t t' (rows, open_run, free, stored) = record {
  new_chunks = chunk_row p id n sha ∷ [];
  new_events = [];
  new_watermarks = [];
  are_readable = tt;
  new_closes = [];
  is_grown = rows ∙ simp (append-nil);
}

append_watermark-Grows :
    (w : R1SourceWatermark) (sha : String) (t t' : Tables) → WroteWatermark w sha t t' → Grows t t'
append_watermark-Grows w sha t t' (rows, open_run, fresh, free, stored, readable, advance) =
    record {
      new_chunks = [];
      new_events = [];
      new_watermarks = watermark_row w sha ∷ [];
      are_readable = (readable, tt);
      new_closes = [];
      is_grown = rows ∙ simp (append-nil);
    }

append_close-Grows : (run id sha : String) (t t' : Tables) → WroteClose run id sha t t' → Grows t t'
append_close-Grows run id sha t t' (rows, open_run, stored) = record {
  new_chunks = [];
  new_events = [];
  new_watermarks = [];
  are_readable = tt;
  new_closes = close_row run id sha ∷ [];
  is_grown = rows ∙ simp (append-nil);
}

Grows-Keeps : (t₀ : Tables) → Keeps (Grows t₀)
Grows-Keeps t₀ = record {
  event = λ p id sha t open_run g.
      Grows-trans t₀ t (record t { events = t.events ++ event_row p id sha ∷ [] }) g
        (append_event-Grows p id sha t);
  chunk =
      λ p id n sha t t' wrote g. Grows-trans t₀ t t' g (append_chunk-Grows p id n sha t t' wrote);
  watermark = λ w sha t t' wrote g. Grows-trans t₀ t t' g (append_watermark-Grows w sha t t' wrote);
  close =
      λ run id sha t t' wrote g. Grows-trans t₀ t t' g (append_close-Grows run id sha t t' wrote);
}

-- Whatever the message is, and whether its call returns or raises, the tables afterwards are those before
-- with rows behind them, of which the watermarks can be read: no row is changed or lost.
pub accept-Grows :
    (d : Digests) (now : Datetime) (m : StreamMessage) (s : Store)
    → Grows s.tables (accept d now m s).1.tables
accept-Grows d now m s =
    accept_inv (Grows s.tables) (Grows-Keeps s.tables) d now m s (Grows-self s.tables s.tables refl)
