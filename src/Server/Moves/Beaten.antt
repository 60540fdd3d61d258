-- ===== src/Server/Moves/Beaten.antt =====
-- The heartbeat, and moves that change no connection.
use uvx.Prelude.{
  ℕ, ◌≤◌, ◌<◌, ◌^◌, ◌≡◌, refl, sym, ap, inl, inr, true, false, List, [], ◌++◌, Option, arith, ltb,
  if◌then◌else◌, Bool-cases, subst, append-nil,
}
use uvx.Prelude.Word.{add32}
use uvx.Memory.{ok}
use uvx.Server.{Server, Conn, Config, Event, calls, heartbeat, on_heartbeat_timer, on_connection}
use uvx.Server.Connections.{Among, Serves}
use uvx.Server.Timeouts.{closes, Ordered, check_timeout-closes}
use uvx.Server.Loop.{
  Pending, all_asked, AllProper, System, beat, no_connection, tick, handle, quiet,
}
use uvx.Server.Pending.{
  all_asked-calls, calls-AllProper, Drops, Drops-refl, closes-Drops, closes-AllProper, Different,
}
use uvx.Server.Members.{member, Among-member, Serves-Different}
use uvx.Server.Times.{Rising-mono, Rising-Ordered}
use uvx.Server.Sound.{At, Sound, Serves-quiet}
use uvx.Server.Moves.{TurnsTo}

-- What a heartbeat asks for, after the callback.
unfoldable pub beat_closes : (ℕ → Option Conn) → ℕ → Config → List ℕ → List Event
beat_closes h now config cs = if ltb 0 config.conn_timeout then closes h now config cs else []

pub beat_run :
    (s : Server) (cs : List ℕ) (now : ℕ)
    → Serves s cs
    → Ordered s.heap now cs
    → on_heartbeat_timer (quiet s) now
      ≡ ok (record s {
        heartbeat_index = add32 s.heartbeat_index 1;
        trace =
            calls s.config.on_heartbeat (heartbeat s.heartbeat_index)
            ++ beat_closes s.heap now s.config cs;
      })
unfolding on_heartbeat_timer beat_closes
beat_run s cs now v o =
    let s' : Server = record s {
      heartbeat_index = add32 s.heartbeat_index 1;
      trace = calls s.config.on_heartbeat (heartbeat s.heartbeat_index);
    } in
    elim (Bool-cases (ltb 0 s.config.conn_timeout)) [
      | inl limited ↦
          let w : Serves s' cs = record {
            table = v.table;
            opened = v.opened;
            holds = v.holds;
            live = v.live;
          } in
          rw limited (check_timeout-closes s' cs now w (ground arith) o)
      | inr unlimited ↦ rw unlimited (
          ap (λ es. ok (record s' { trace = es }))
            (sym (append-nil (calls s.config.on_heartbeat (heartbeat s.heartbeat_index)))))
    ]

-- Where connections of the list are dropped, every address stays in order.
Drops-At :
    (p p' : Pending) (cs : List ℕ) (d : ℕ) (o : Option Conn) (n : ℕ)
    → Drops p cs p'
    → ((c : ℕ) → p.reading c ≡ true → p.closing c ≡ false)
    → At o (p.reading d) (p.closing d) n (member d cs)
    → At o (p'.reading d) (p'.closing d) n (member d cs)
Drops-At p p' cs d o n t apart a = record {
  counted = a.counted;
  freed = a.freed;
  placed =
      let named : p'.closing d ≡ true → member d cs ≡ true =
        λ k. elim (t.new d k) [ inl old ↦ ground (arith, a) | inr m ↦ Among-member d cs m ] in
      ground (arith, a, named, t.fewer d, t.still d, t.moved d);
  apart = ground (arith, t.apart apart d);
  few = a.few;
}

beat-Drops :
    (h : ℕ → Option Conn) (now : ℕ) (config : Config) (cs : List ℕ) (p : Pending)
    → Drops p cs (all_asked p (beat_closes h now config cs))
unfolding beat_closes
beat-Drops h now config cs p = elim (Bool-cases (ltb 0 config.conn_timeout)) [
  | inl limited ↦ rw limited (closes-Drops h now config p cs)
  | inr unlimited ↦ rw unlimited (Drops-refl p cs)
]

beat_proper :
    (h : ℕ → Option Conn) (now : ℕ) (config : Config) (cs : List ℕ) (p : Pending)
    → Different cs
    → ((d : ℕ) → Among d cs → p.closing d ≡ false)
    → AllProper p (beat_closes h now config cs)
unfolding beat_closes
beat_proper h now config cs p d o = elim (Bool-cases (ltb 0 config.conn_timeout)) [
  | inl limited ↦ rw limited (closes-AllProper h now config p cs d o)
  | inr unlimited ↦ rw unlimited tt
]

module _ (s : System) (cs : List ℕ) (v : Sound s cs) where
  pub all_read :
      ((c : ℕ) → s.pending.closing c ≡ false) → (d : ℕ) → Among d cs → s.pending.reading d ≡ true
  all_read none_closes d m = let a = v.at d in ground (arith, a, none_closes d, Among-member d cs m)

  pub in_order : ((c : ℕ) → s.pending.closing c ≡ false) → Ordered s.server.heap s.clock cs
  in_order none_closes =
      Rising-Ordered s.server.heap s.pending.reading s.clock cs v.small v.serves.live
        (all_read none_closes) v.times

  pub beat-TurnsTo : ((c : ℕ) → s.pending.closing c ≡ false) → TurnsTo beat s cs
  unfolding handle
  beat-TurnsTo none_closes =
      let server : Server = s.server in
      let config = server.config in
      let es = beat_closes server.heap s.clock config cs in
      let first = heartbeat server.heartbeat_index in
      let p' = all_asked s.pending es in
      let t = beat-Drops server.heap s.clock config cs s.pending in
      let pending : all_asked s.pending (calls config.on_heartbeat first ++ es) ≡ p' =
        all_asked-calls config.on_heartbeat first s.pending es (λ q. (refl, tt)) in
      let server' : Server = record server {
        heartbeat_index = add32 server.heartbeat_index 1;
        trace = calls config.on_heartbeat first ++ es;
      } in
      (
        server',
        beat_run server cs s.clock v.serves (in_order none_closes),
        record {
          proper =
              calls-AllProper config.on_heartbeat first s.pending es (λ q. (refl, tt))
                (beat_proper server.heap s.clock config cs s.pending (Serves-Different cs v.serves)
                  (λ d m. none_closes d));
          sound =
              subst
                (λ p.
                  Sound (record { server = server'; pending = p; held = s.held; clock = s.clock })
                    cs)
                (sym pending)
                (record {
                  serves = record {
                    table = v.serves.table;
                    opened = v.serves.opened;
                    holds = v.serves.holds;
                    live = v.serves.live;
                  };
                  at = λ d.
                      Drops-At s.pending p' cs d (server.heap d) (s.held d) t (λ c r. none_closes c)
                        (v.at d);
                  times =
                      Rising-mono server.heap s.pending.reading server.heap p'.reading s.clock
                        s.clock cs (omega arith) (λ d m r. (t.fewer d r, refl)) v.times;
                  small = v.small;
                });
        },
      )

  pub tick-TurnsTo : (now : ℕ) → s.clock ≤ now → now < 2 ^ 64 → TurnsTo (tick now) s cs
  unfolding handle
  tick-TurnsTo now later small = (
    quiet s.server,
    refl,
    record {
      proper = tt;
      sound = record {
        serves = Serves-quiet v.serves;
        at = v.at;
        times =
            Rising-mono s.server.heap s.pending.reading s.server.heap s.pending.reading s.clock now
              cs later (λ d m r. (r, refl)) v.times;
        small = small;
      };
    },
  )

  pub no_connection-TurnsTo : TurnsTo no_connection s cs
  unfolding handle on_connection
  no_connection-TurnsTo = (
    quiet s.server,
    refl,
    record {
      proper = tt;
      sound = record {
        serves = Serves-quiet v.serves;
        at = v.at;
        times = v.times;
        small = v.small;
      };
    },
  )
