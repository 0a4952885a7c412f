-- ===== src/Stratum/Connections/Closing.antt =====
-- When handleClient of stratum/stratum.go ends, and what it leaves.
use xmrpool.Common.{
  ℕ, ◌≡◌, refl, Bool, true, false, Option, none, some, List, [], ◌∷◌, ◌++◌, ltb, length, All, arith,
  Bool-cases, Option-cases, inl, inr, ◌⊎◌, ◌∙◌,
}
use xmrpool.Common.Ints.{ℤ}
use xmrpool.Common.Texts.{Bytes}
use xmrpool.Stratum.Types.{Env, World, Run, returned}
use xmrpool.Stratum.Runs.{
  bind-returned, bind-run, Ends, bind-Ends, Ends-all, Ends-weaken, Ends-returned,
}
use xmrpool.Stratum.Handlers.{is_active}
use xmrpool.Stratum.Messages.{JsonRpcReq, Unmarshal}
use xmrpool.Stratum.Connections.{
  Line, Phase, reading, closed, set_deadline, on_request, on_line, after_line, turn, go_on, serve,
  handle_client,
}
use xmrpool.Stratum.Connections.Seats.{is_active-remove_session}

abbrev is_closed : Phase → Bool
is_closed closed = true
is_closed reading = false

abbrev ended : Phase → ℤ → World → Run (Phase × ℤ)
ended phase d w = returned (phase, d) w

not_closed : {d d' : ℤ} {w w' : World} → ended reading d w ≡ ended closed d' w' → ⊥
not_closed same = cc same

module _ {P : Type 0} (env : Env) (unmarshal : Unmarshal P) (decode : Bytes → Option (JsonRpcReq P))
    (timeout : ℤ) (sid : ℕ) where
  -- A line that the loop may go on after: it fits the buffer, was read without an error, and is a
  -- request unless it is shorter than two bytes.
  pub record Readable (line : Line) : Type 0 where
    pub fits : line.is_prefix ≡ false
    pub was_read : line.err ≡ none
    pub is_request :
        ltb 1 (length line.data_read) ≡ true
        → ((req : JsonRpcReq P) × (decode line.data_read ≡ some req))

  -- What a line leaves, when the loop goes on and when it does not.
  abbrev Answered : Line → Bool × ℤ → World → Type 0
  Answered line r w = r.0 ≡ true → Readable line

  on_request-Ends :
      (line : Line) (d : ℤ) (w : World)
      → line.is_prefix ≡ false
      → line.err ≡ none
      → Ends
          (Answered line)
          (on_request env unmarshal decode timeout sid (decode line.data_read) d w)
  unfolding on_request
  on_request-Ends line d w fits was_read = elim (Option-cases (decode line.data_read)) [
    | inl malformed ↦ rw malformed (λ e. cc)
    | inr (req, good) ↦
        Ends-all (Answered line) _
          λ r u e. record { fits = fits; was_read = was_read; is_request = λ long. (req, good) }
  ]

  on_line-Ends :
      (line : Line) (d : ℤ) (w : World)
      → Ends (Answered line) (on_line env unmarshal decode timeout sid line d w)
  unfolding on_line
  on_line-Ends line d w = elim (Bool-cases line.is_prefix) [
    | inl flood ↦ simp flood (λ e. cc)
    | inr fits ↦ elim (Option-cases line.err) [
      | inr (failure, is) ↦ simp (fits, is) (λ e. cc)
      | inl was_read ↦ elim (Bool-cases (ltb 1 (length line.data_read))) [
        | inl long ↦ simp (fits, was_read, long) (on_request-Ends line d w fits was_read)
        | inr short ↦
            simp (fits, was_read, short)
              (λ e. record {
                fits = fits;
                was_read = was_read;
                is_request = λ long. absurd (ground (arith, short));
              })
      ]
    ]
  ]

  -- What a turn leaves.
  abbrev Turned : Line → Bool × ℤ → World → Type 0
  Turned line r w = (r.0 ≡ true → Readable line) × (r.0 ≡ false → is_active sid w.sessions ≡ false)

  after_line-Ends :
      (line : Line) (a : Bool × ℤ) (w : World)
      → Answered line a w
      → Ends (Turned line) (after_line env unmarshal decode timeout sid a w)
  unfolding after_line
  after_line-Ends line (true, d) w h = (h, λ e. cc)
  after_line-Ends line (false, d) w h = (λ e. cc, λ e. is_active-remove_session sid w.sessions)

  turn-Ends :
      (line : Line) (d : ℤ) (w : World)
      → Ends (Turned line) (turn env unmarshal decode timeout sid line d w)
  unfolding turn
  turn-Ends line d w =
      bind-Ends (Answered line) (Turned line) (on_line env unmarshal decode timeout sid line d)
        (after_line env unmarshal decode timeout sid) w (on_line-Ends line d w)
        (after_line-Ends line)

  -- What the loop leaves.
  abbrev Served : List Line → Phase × ℤ → World → Type 0
  Served lines r w =
      (is_closed r.0 ≡ false → All Readable lines)
      × (is_closed r.0 ≡ true → is_active sid w.sessions ≡ false)

  go_on-Ends :
      (line : Line) (lines : List Line) (rest : ℤ → World → Run (Phase × ℤ)) (a : Bool × ℤ)
      (w : World)
      → ((d : ℤ) (w1 : World) → Ends (Served lines) (rest d w1))
      → Turned line a w
      → Ends (Served (line ∷ lines)) (go_on env unmarshal decode timeout sid rest a w)
  unfolding go_on
  go_on-Ends line lines rest (false, d) w ih h = (λ e. cc, λ e. h.1 refl)
  go_on-Ends line lines rest (true, d) w ih h =
      Ends-weaken (Served lines) (Served (line ∷ lines)) (rest d w)
        (λ r u served. (λ e. (h.0 refl, served.0 e), served.1)) (ih d w)

  serve-Ends :
      (lines : List Line) (d : ℤ) (w : World)
      → Ends (Served lines) (serve env unmarshal decode timeout sid lines d w)
  unfolding serve
  serve-Ends [] d w = (λ e. tt, λ e. cc)
  serve-Ends (line ∷ lines) d w =
      let rest = serve env unmarshal decode timeout sid lines in
      bind-Ends (Turned line) (Served (line ∷ lines)) (turn env unmarshal decode timeout sid line d)
        (go_on env unmarshal decode timeout sid rest) w (turn-Ends line d w)
        (λ a w1 turned. go_on-Ends line lines rest a w1 (serve-Ends lines) turned)

  go_on-more :
      (rest rest' : ℤ → World → Run (Phase × ℤ)) (a : Bool × ℤ) (d : ℤ) (w w' : World)
      → ((d' : ℤ) → rest d' w ≡ returned (closed, d) w' → rest' d' w ≡ returned (closed, d) w')
      → go_on env unmarshal decode timeout sid rest a w ≡ returned (closed, d) w'
      → go_on env unmarshal decode timeout sid rest' a w ≡ returned (closed, d) w'
  unfolding go_on
  go_on-more rest rest' (true, d') d w w' ih e = ih d' e
  go_on-more rest rest' (false, d') d w w' ih e = e

  serve-more :
      (lines more : List Line) (d d' : ℤ) (w w' : World)
      → serve env unmarshal decode timeout sid lines d w ≡ returned (closed, d') w'
      → serve env unmarshal decode timeout sid (lines ++ more) d w ≡ returned (closed, d') w'
  unfolding serve
  serve-more [] more d d' w w' e = absurd (not_closed e)
  serve-more (line ∷ lines) more d d' w w' e =
      let rest = serve env unmarshal decode timeout sid lines in
      let rest' = serve env unmarshal decode timeout sid (lines ++ more) in
      let (a, w1, ran, last) =
        bind-returned (turn env unmarshal decode timeout sid line d)
          (go_on env unmarshal decode timeout sid rest) w (closed, d') w' e in
      bind-run (turn env unmarshal decode timeout sid line d)
        (go_on env unmarshal decode timeout sid rest') w a w1 ran
      ∙ go_on-more rest rest' a d' w1 w' (λ d1 e1. serve-more lines more d1 d' w1 w' e1) last

  -- Over the lines of a connection, from any state, `handle_client` returns in one of two ways, unless a
  -- handler panics. Either it waits for the next line, and then all lines so far fitted the buffer, were
  -- read without an error, and are requests if they have two bytes or more. Or it has ended, and then
  -- the session is not registered any more, and the lines that come later make no difference.
  pub handle_client-Closed :
      (lines more : List Line) (phase : Phase) (d : ℤ) (w w' : World)
      → handle_client env unmarshal decode timeout sid lines w ≡ returned (phase, d) w'
      → ((phase ≡ reading) × All Readable lines)
        ⊎ ((phase ≡ closed)
            × (is_active sid w'.sessions ≡ false)
            × (handle_client env unmarshal decode timeout sid (lines ++ more) w
                ≡ returned (phase, d) w'))
  unfolding handle_client set_deadline
  handle_client-Closed lines more reading d w w' e =
      inl (refl, (Ends-returned (Served lines) _ (reading, d) w' (serve-Ends lines _ _) e).0 refl)
  handle_client-Closed lines more closed d w w' e = inr (
    refl,
    (Ends-returned (Served lines) _ (closed, d) w' (serve-Ends lines _ _) e).1 refl,
    serve-more lines more _ d _ w' e,
  )
