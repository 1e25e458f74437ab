-- ===== src/Pipeline/Pumps.antt =====
-- The two pumps of crates/tekflash-core/src/pipeline/reader.rs and writer.rs, joined by a bounded
-- channel. Each is a task that takes one step at a time; how the steps interleave is a list.
pub mod Flow
pub mod Written
pub mod Settle
use tekflash.Common.{
  ℕ, zero, suc, ◌+◌, Bool, true, false, List, [], ◌∷◌, ◌++◌, Result, ok, err, length, ltb,
  if◌then◌else◌,
}
use tekflash.Pipeline.Reader.{Reader}
use tekflash.Pipeline.Writer.{Writer}

-- Where `reader::pump` stands: at the head of its loop, in a send, or returned. It returns its total
-- at the end of the source, and also when the receiver is gone.
pub data Reading (E : Type 0) : Type 0 where
  reading : Reading E
  sending : List ℕ → Reading E
  read_all : ℕ → Reading E
  hung_up : ℕ → Reading E
  read_failed : E → Reading E

-- Where `writer::pump` stands.
pub data Writing (E : Type 0) : Type 0 where
  receiving : Writing E
  written : ℕ → Writing E
  write_failed : E → Writing E

-- The buffers in the channel are their valid bytes.
pub record Pumps {E : Type 0} (r : Reader E) (w : Writer E) : Type 0 where
  pub src : r.State
  pub reader : Reading E
  pub total_in : ℕ
  pub queue : List (List ℕ)
  pub dst : w.State
  pub writer : Writing E
  pub total_out : ℕ

pub data Task : Type 0 where
  read_task write_task : Task

module _ {E : Type 0} (r : Reader E) (w : Writer E) (buf_size capacity : ℕ) where
  abbrev pub start : r.State → w.State → Pumps r w
  start src dst = record {
    src = src;
    reader = reading;
    total_in = 0;
    queue = [];
    dst = dst;
    writer = receiving;
    total_out = 0;
  }

  abbrev pub got : Pumps r w → Result E (List ℕ × r.State) → Pumps r w
  got st (err e) = record st { reader = read_failed e }
  got st (ok ([], src)) = record st { src = src; reader = read_all st.total_in }
  got st (ok (b ∷ bs, src)) = record st {
    src = src;
    reader = sending (b ∷ bs);
    total_in = st.total_in + length (b ∷ bs);
  }

  -- A send waits while the channel is full, and fails when the receiver is gone.
  abbrev pub send : Pumps r w → List ℕ → Writing E → Pumps r w
  send st chunk receiving =
      if ltb (length st.queue) capacity
      then record st { reader = reading; queue = st.queue ++ chunk ∷ [] }
      else st
  send st chunk (written n) = record st { reader = hung_up st.total_in }
  send st chunk (write_failed e) = record st { reader = hung_up st.total_in }

  abbrev pub read_step : Pumps r w → Reading E → Pumps r w
  read_step st reading = got st (r.read st.src buf_size)
  read_step st (sending chunk) = send st chunk st.writer
  read_step st (read_all n) = st
  read_step st (hung_up n) = st
  read_step st (read_failed e) = st

  -- A pump that returns drops its receiver, and with it what the channel holds.
  abbrev pub put : Pumps r w → ℕ → List (List ℕ) → Result E w.State → Pumps r w
  put st n queue (err e) = record st { queue = []; writer = write_failed e }
  put st n queue (ok dst) = record st { queue = queue; dst = dst; total_out = st.total_out + n }

  abbrev pub close : Pumps r w → Result E w.State → Pumps r w
  close st (err e) = record st { writer = write_failed e }
  close st (ok dst) = record st { dst = dst; writer = written st.total_out }

  -- The channel is closed once the reader's pump, which owns the only sender, has returned.
  abbrev pub drained : Pumps r w → Reading E → Pumps r w
  drained st reading = st
  drained st (sending chunk) = st
  drained st (read_all n) = close st (w.flush st.dst)
  drained st (hung_up n) = close st (w.flush st.dst)
  drained st (read_failed e) = close st (w.flush st.dst)

  abbrev pub receive : Pumps r w → List (List ℕ) → Pumps r w
  receive st [] = drained st st.reader
  receive st (chunk ∷ queue) = put st (length chunk) queue (w.write_all st.dst chunk)

  abbrev pub write_step : Pumps r w → Writing E → Pumps r w
  write_step st receiving = receive st st.queue
  write_step st (written n) = st
  write_step st (write_failed e) = st

  unfoldable pub step : Task → Pumps r w → Pumps r w
  step read_task st = read_step st st.reader
  step write_task st = write_step st st.writer

  -- The steps of a schedule in order; a task that has to wait, or has returned, changes nothing.
  unfoldable pub run : List Task → Pumps r w → Pumps r w
  unfolding step
  run [] st = st
  run (task ∷ tasks) st = run tasks (step task st)
