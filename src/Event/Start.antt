-- ===== src/Event/Start.antt =====
-- `InitializeTraceEvent` and `GetSystemTime100nsFast` (trace_transport.cpp, lines 143 to 189).
use hook_nt.Prelude.{ℕ, ◌%◌, ◌^◌, ◌≤◌, Bool, true, false, ◌&&◌, ◌≡◌, refl}
use hook_nt.Prelude.{ap, ◌∙◌, some, List, [], ◌++◌, length, take, drop, arith}
use hook_nt.Prelude.{if◌then◌else◌, length-drop, length-append, Bool-cases, inl, inr, ◌⊎◌}
use hook_nt.Prelude.{length-take_of_le}
use hook_nt.Memory.{custom_mem_set, custom_mem_cpy, at_offset, c_str}
use hook_nt.Memory.Laws.{custom_mem_cpy_lem, at_offset-append, length-custom_mem_set}
use hook_nt.Protocol.{TraceEvent, payload_size, trace_event_flag_field_error}
use hook_nt.Protocol.Layout.{is_identifier, IsEvent}
use hook_nt.Transport.{is_malformed, set_flag}
use hook_nt.Transport.Names.{is_valid_identifier_lem, take-c_str, length-c_str-le}
use hook_nt.Event.{get_current_thread_id_fast, clear_event, fill_event, start_event}

module _ (event : TraceEvent) (whole : length event.payload ≡ payload_size)
    (module_name api : List ℕ) where
  abbrev m : ℕ
  m = length (c_str module_name)

  abbrev a : ℕ
  a = length (c_str api)

  abbrev blank : List ℕ
  blank = custom_mem_set event.payload 0 payload_size

  length-blank : length blank ≡ 992
  length-blank = length-custom_mem_set payload_size 0 event.payload ∙ whole

  names_small :
      is_identifier true (c_str module_name) ≡ true
      → is_identifier false (c_str api) ≡ true
      → (m ≤ 63) × (a ≤ 63)
  names_small hm ha = (ground arith, ground arith)

  payload-fill_event :
      (teb_word now : ℕ)
      → m ≤ 63
      → a ≤ 63
      → (fill_event teb_word now (clear_event event) module_name m api a).payload
        ≡ c_str module_name ++ (c_str api ++ drop a (drop m blank))
  unfolding fill_event clear_event
  payload-fill_event teb_word now hm ha =
      ap (at_offset m (λ p. custom_mem_cpy p api a)) (
        custom_mem_cpy_lem m blank module_name (omega (arith, length-blank))
          (length-c_str-le module_name))
      ∙ at_offset-append (λ p. custom_mem_cpy p api a) m (take m module_name) (drop m blank)
          (omega (arith, length-take_of_le m module_name (length-c_str-le module_name)))
      ∙ ap (λ r. take m module_name ++ r)
          (custom_mem_cpy_lem a (drop m blank) api
            (omega (arith, length-blank, length-drop m blank)) (length-c_str-le api))
      ∙ rw (take-c_str module_name, take-c_str api) refl

  fill_event-IsEvent :
      (teb_word now : ℕ)
      → is_identifier true (c_str module_name) ≡ true
      → is_identifier false (c_str api) ≡ true
      → IsEvent
          (fill_event teb_word now (clear_event event) module_name m api a)
          (c_str module_name)
          (c_str api)
          []
  unfolding fill_event clear_event
  fill_event-IsEvent teb_word now hm ha =
      let (sm, sa) = names_small hm ha in
      record {
        magic = refl;
        version = refl;
        module_length = refl;
        api_length = refl;
        count = refl;
        size = omega arith;
        fits = omega arith;
        whole = omega (
          arith,
          ap length (payload-fill_event teb_word now sm sa),
          length-append (c_str module_name) (c_str api ++ drop a (drop m blank)),
          length-append (c_str api) (drop a (drop m blank)),
          length-drop a (drop m blank),
          length-drop m blank,
          length-blank,
        );
        unused = drop a (drop m blank);
        layout = payload-fill_event teb_word now sm sa;
        module_named = hm;
        api_named = ha;
        fields_ok = tt;
        distinct = refl;
      }

start_checks :
    (teb_word now : ℕ) (event : TraceEvent) (module_name api : List ℕ)
    → start_event teb_word now event (some module_name) (some api) ≡ (
        if is_identifier true (c_str module_name) && is_identifier false (c_str api)
        then (
          fill_event teb_word now
              (clear_event event)
              module_name
              (length (c_str module_name))
              api
              (length (c_str api)),
          true,
        )
        else (set_flag (clear_event event) trace_event_flag_field_error, false))
unfolding start_event
start_checks teb_word now event module_name api =
    ground (arith, is_valid_identifier_lem module_name true, is_valid_identifier_lem api false)

abbrev pub valid_names : List ℕ → List ℕ → Bool
valid_names module_name api = is_identifier true module_name && is_identifier false api

-- Two valid names: the answer true, and a well-formed event with no fields, no flags, the thread and
-- the time.
abbrev pub Begins : ℕ → ℕ → List ℕ → List ℕ → TraceEvent × Bool → Type 0
Begins teb_word now module_name api r =
    (valid_names module_name api ≡ true)
    × (r.1 ≡ true)
    × IsEvent r.0 module_name api []
    × (r.0.header.flags ≡ 0)
    × (r.0.header.thread_id ≡ teb_word % 2 ^ 32)
    × (r.0.header.timestamp_100ns ≡ now)

-- A bad name: the answer false, and an event that every later call refuses.
abbrev pub Refuses : List ℕ → List ℕ → TraceEvent × Bool → Type 0
Refuses module_name api r =
    (valid_names module_name api ≡ false)
    × (r.1 ≡ false)
    × (is_malformed r.0 ≡ true)
    × (r.0.header.flags ≡ trace_event_flag_field_error)

-- `InitializeTraceEvent` on any block of 1024 bytes, whatever stood in it. Either both names are
-- valid: it answers true and leaves a well-formed event with no fields, no flags, the thread and the
-- time. Or it answers false and leaves an event that every later call refuses.
pub start_event_lem :
    (teb_word now : ℕ) (event : TraceEvent) (module_name api : List ℕ)
    → length event.payload ≡ payload_size
    → Begins teb_word now
        (c_str module_name)
        (c_str api)
        (start_event teb_word now event (some module_name) (some api))
      ⊎ Refuses
          (c_str module_name)
          (c_str api)
          (start_event teb_word now event (some module_name) (some api))
start_event_lem teb_word now event module_name api whole =
    rw start_checks (elim (Bool-cases (valid_names (c_str module_name) (c_str api))) [
      | inr bad ↦ rw bad (inr (unfold clear_event in (refl, refl, refl, refl)))
      | inl good ↦ rw good (
          inl (
            refl,
            refl,
            fill_event-IsEvent event whole module_name api teb_word now (ground arith)
                (ground arith),
            unfold fill_event clear_event in refl,
            unfold fill_event get_current_thread_id_fast in refl,
            unfold fill_event in refl,
          ))
    ])
