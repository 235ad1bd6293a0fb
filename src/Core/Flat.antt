-- ===== src/Core/Flat.antt =====
-- A board whose low addresses are plain memory, in the states of a predicate: what the theorems on
-- the stack instructions and the interrupts of 6809.c take.
use exec.Base.{ℕ, ◌<◌, ◌≤◌, ◌≡◌, ◌==◌, if◌then◌else◌}
use exec.Base.Run.{done}
use exec.Core.Board.{Sys, Board}

module _ {E : Type 0} (board : Board E) (Ok : E → Type 0) (peek : E → ℕ → ℕ) (poke : ℕ → ℕ → E → E)
    (top : ℕ) where
  pub record IsFlat : Type 0 where
    pub top_range : top < 65536
    pub read :
        (addr : ℕ) (s : Sys E)
        → Ok s.env
        → addr < top
        → board.read8 addr s ≡ done (peek s.env addr) s
    pub write :
        (addr val : ℕ) (s : Sys E)
        → Ok s.env
        → addr < top
        → board.write8 addr val s ≡ done tt (record s { env = poke addr val s.env })
    pub peek-poke :
        (addr val at : ℕ) (e : E)
        → Ok e
        → addr < top
        → at < top
        → peek (poke addr val e) at ≡ (if addr == at then val else peek e at)
    pub poke-Ok : (addr val : ℕ) (e : E) → Ok e → addr < top → Ok (poke addr val e)
    -- The call stack of the monitor and the interrupt statistics are no memory.
    pub on_return : E → E
    pub returns :
        (s : Sys E) → board.monitor_return s ≡ done tt (record s { env = on_return s.env })
    pub peek-on_return : (e : E) (at : ℕ) → peek (on_return e) at ≡ peek e at
    pub on_return-Ok : (e : E) → Ok e → Ok (on_return e)
    pub on_call : ℕ → E → E
    pub calls :
        (k : ℕ) (s : Sys E) → board.monitor_call k s ≡ done tt (record s { env = on_call k s.env })
    pub peek-on_call : (k : ℕ) (e : E) (at : ℕ) → peek (on_call k e) at ≡ peek e at
    pub on_call-Ok : (k : ℕ) (e : E) → Ok e → Ok (on_call k e)
    pub on_rti : ℕ → E → E
    pub counts :
        (k : ℕ) (s : Sys E) → board.exit_irq_hook k s ≡ done tt (record s { env = on_rti k s.env })
    pub peek-on_rti : (k : ℕ) (e : E) (at : ℕ) → peek (on_rti k e) at ≡ peek e at
    pub on_rti-Ok : (k : ℕ) (e : E) → Ok e → Ok (on_rti k e)
    -- The vectors are read by `cpu_read16`; they lie above the memory.
    pub word_at : E → ℕ → ℕ
    pub read_word :
        (addr : ℕ) (s : Sys E)
        → Ok s.env
        → 0xfff0 ≤ addr
        → addr < 0xffff
        → board.read16 addr s ≡ done (word_at s.env addr) s
