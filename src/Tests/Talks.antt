-- ===== src/Tests/Talks.antt =====
-- An MF exchange of two channels on the line of the examples.
use openr.Prelude.{
  ℕ, pos, List, [], ◌∷◌, some, zero, suc, ◌<◌, ◌≡◌, refl, inl, true, false, length, get_or, arith,
}
use openr.Exchange.Answers.{CollectsNumber}
use openr.Exchange.Tells.{TellsNumber, AsksCategory}
use openr.Exchange.TellsAni.{AsksAni}
use openr.Exchange.Cycle.{cycle, cycles}
use openr.Exchange.Offer.{ani_text}
use openr.Exchange.Whole.{cycles-offered}
use openr.Chan.Timers.{emit}
use openr.Proto.Mf.{tone2category}
use openr.Types.{CallState, Direction, MfGroup, MfState}
use openr.Chan.{Chan, Env, Event}
use openr.Proto.Backward.Receive.{is_digit_tone}
use openr.Proto.Calls.Make.{string_copy}
use openr.Proto.Session.{fresh_chan}
use openr.Proto.Tone.{handle_mf_tone}
use openr.Digits.{dnis_text}
use openr.Tests.{line_context, line_env, number, seizing_chan}

-- The called side collects two digits of the ANI.
abbrev called_env : Env
called_env = record (line_env 0) { r2context = record line_context { max_ani = pos 2 } }

abbrev own_number : List ℕ
own_number = b'7' ∷ b'0' ∷ []

-- The caller has the first digit on the line.
abbrev caller : Chan
caller = record seizing_chan {
  mf_group = MfGroup.gi;
  mf_write_tone = b'5';
  mf_read_tone = 0;
  dnis = string_copy 79 number;
  dnis_index = 0;
  caller_category = b'1';
  ani = string_copy 79 own_number;
  ani_ptr = some 0;
  category_sent = false;
}

-- The called side has acknowledged the seize.
abbrev seized : Chan
seized = record (fresh_chan 1 2) {
  direction = Direction.backward;
  mf_group = MfGroup.back_init;
  mf_state = MfState.seize_ack_txd;
  call_state = CallState.collecting;
}

caller-TellsNumber : TellsNumber (line_env 0)
caller-TellsNumber = record {
  sends = record { has_io = refl; selects = λ c t. refl; flushes = λ c. refl };
  quiet = record { callback = λ e c. refl; dnis_callback = λ d c. refl };
  threshold = refl;
}

number-is_digit_tone : (j : ℕ) → j < length number → is_digit_tone (get_or number j 0) ≡ true
number-is_digit_tone zero h = refl
number-is_digit_tone (suc zero) h = refl
number-is_digit_tone (suc (suc zero)) h = refl
number-is_digit_tone (suc (suc (suc zero))) h = refl
number-is_digit_tone (suc (suc (suc (suc j)))) h = absurd (omega arith)

line-CollectsNumber : CollectsNumber (length number) called_env
line-CollectsNumber = record {
  sends = record { has_io = refl; selects = λ c t. refl; flushes = λ c. refl };
  quiet = record { callback = λ e c. refl; dnis_callback = λ d c. refl };
  threshold = refl;
  wants_digit = λ d c. refl;
  max_dnis = refl;
  dnis_first = refl;
  asks_category = refl;
  category = refl;
  next_digit = refl;
}

line-AsksCategory : AsksCategory line_context.mf_ga_tones
line-AsksCategory = record {
  used = refl;
  next_digit = omega arith;
  minus_1 = omega arith;
  minus_2 = omega arith;
  minus_3 = omega arith;
  all_again = omega arith;
  no_change = omega arith;
}

line-AsksAni : AsksAni line_context.mf_ga_tones
line-AsksAni = record {
  ani_used = refl;
  g2_used = refl;
  next_digit = omega arith;
  minus_1 = omega arith;
  minus_2 = omega arith;
  minus_3 = omega arith;
  all_again = omega arith;
  g2_next_digit = omega arith;
  g2_minus_1 = omega arith;
  g2_minus_2 = omega arith;
  g2_minus_3 = omega arith;
  g2_all_again = omega arith;
  g2_ani = omega arith;
  g2_category = omega arith;
}

own_number-is_digit_tone :
    (j : ℕ) → j < length own_number → is_digit_tone (get_or own_number j 0) ≡ true
own_number-is_digit_tone zero h = refl
own_number-is_digit_tone (suc zero) h = refl
own_number-is_digit_tone (suc (suc j)) h = absurd (omega arith)

cycles-offered_example :
    let ab =
      cycles
        (line_env 0)
        called_env
        2
        (cycle (line_env 0) called_env (cycles (line_env 0) called_env 4 (caller, seized))) in
    (x : Chan) × (handle_mf_tone called_env ab.0.mf_write_tone ab.1
      ≡ emit called_env
          (Event.on_call_offered (tone2category called_env b'1') x.caller_ani_is_restricted)
          x)
    × (dnis_text x ≡ number)
    × (ani_text x ≡ own_number)
    × (x.call_state ≡ CallState.offered)
unfolding fresh_chan
cycles-offered_example =
    cycles-offered (line_env 0) called_env number own_number b'1' caller seized caller-TellsNumber
      line-CollectsNumber (record { max_ani = refl; counted = refl; waits = refl; no_gc = refl })
      refl line-AsksCategory line-AsksAni refl (omega arith, omega arith) (omega arith, omega arith)
      number-is_digit_tone own_number-is_digit_tone
      (record {
        direction = refl;
        group = refl;
        heard = refl;
        sends = refl;
        dnis = refl;
        index = refl;
        category = refl;
        unsent = refl;
        own = refl;
        own_index = refl;
      })
      (record {
        direction = refl;
        awaits = inl (refl, refl);
        heard = refl;
        size = refl;
        len = refl;
        text = refl;
        ani_size = refl;
        ani_len = refl;
        collecting = refl;
      })
