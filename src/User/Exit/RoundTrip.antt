-- ===== src/User/Exit/RoundTrip.antt =====
-- uei.go against wrapper.h: the exit record that the other half writes, and what Go reads of it.
use mathlib.Core.List.{append_assoc}
use scx_goland_core.Base.{
  ℕ, zero, suc, ◌+◌, ◌^◌, ◌<◌, ◌≤◌, ◌≡◌, refl, ap, arith, true, false, not, ◌||◌, ◌==◌, some, [],
  ◌∷◌, ◌++◌, length, length-append, take, drop, ltb,
}
use scx_goland_core.User.Message.{Bytes, uint32, uint64}
use scx_goland_core.User.Text.Decimal.{All}
use scx_goland_core.User.Text.Lists.{other_than}
use scx_goland_core.Wrapper.Uei.{UserExitInfoC, uei_bytes}
use scx_goland_core.User.Exit.{
  UserExitInfo, uei_size, read_uei, get_uei_data, go_string, get_reason, get_message, stopped,
}

-- The values of the C types, with the arrays in full.
pub record ExitFits (i : UserExitInfoC) : Type 0 where
  pub kind_fits : i.kind < 2 ^ 32
  pub code_fits : i.exit_code < 2 ^ 64
  pub reason_full : length i.reason ≡ 128
  pub msg_full : length i.msg ≡ 1024

take-append : (n : ℕ) (s t : Bytes) → length s ≡ n → take n (s ++ t) ≡ s
take-append zero [] t e = refl
take-append zero (c ∷ s) t e = absurd (omega arith)
take-append (suc n) [] t e = absurd (omega arith)
take-append (suc n) (c ∷ s) t e = ap (◌∷◌ c) (take-append n s t (omega arith))

drop-append : (n : ℕ) (s t : Bytes) → length s ≡ n → drop n (s ++ t) ≡ t
drop-append zero [] t e = refl
drop-append zero (c ∷ s) t e = absurd (omega arith)
drop-append (suc n) [] t e = absurd (omega arith)
drop-append (suc n) (c ∷ s) t e = drop-append n s t (omega arith)

-- What Go reads of the record `i`.
abbrev pub exit_info : UserExitInfoC → Bytes → UserExitInfo
exit_info i padding = record {
  kind = i.kind;
  paid = uint32 padding 0;
  exit_code = i.exit_code;
  reason = i.reason;
  message = i.msg;
}

not_short : (n size : ℕ) → size ≤ n → ltb n size ≡ false
not_short n size h = ground arith

read_uei-eq :
    (b : Bytes) (u : UserExitInfo)
    → uei_size ≤ length b
    → uint32 b 0 ≡ u.kind
    → uint32 b 4 ≡ u.paid
    → uint64 b 8 ≡ u.exit_code
    → take 128 (drop 16 b) ≡ u.reason
    → take 1024 (drop 144 b) ≡ u.message
    → read_uei b ≡ some u
unfolding read_uei
read_uei-eq b u long kind paid code reason msg =
    let enough : ltb (length b) uei_size ≡ false = not_short (length b) uei_size long in
    rw enough (
      ap some (λ i. record {
        kind = kind i;
        paid = paid i;
        exit_code = code i;
        reason = reason i;
        message = msg i;
      }))

-- What follows the first sixteen bytes.
module _ (i : UserExitInfoC) (rest : Bytes) (h : ExitFits i) where
  tail_reason : take 128 ((i.reason ++ i.msg) ++ rest) ≡ i.reason
  tail_reason =
      rw (append_assoc i.reason i.msg rest) (take-append 128 i.reason (i.msg ++ rest) h.reason_full)

  tail_msg : take 1024 (drop 128 ((i.reason ++ i.msg) ++ rest)) ≡ i.msg
  tail_msg =
      rw (append_assoc i.reason i.msg rest, drop-append 128 i.reason (i.msg ++ rest) h.reason_full)
        (take-append 1024 i.msg rest h.msg_full)

  tail_length : length ((i.reason ++ i.msg) ++ rest) ≡ 1152 + length rest
  tail_length = omega (
    arith,
    length-append (i.reason ++ i.msg) rest,
    length-append i.reason i.msg,
    h.reason_full,
    h.msg_full,
  )

  -- With the padding one byte at a time.
  read_uei-bytes :
      (a b c d : ℕ)
      → read_uei (uei_bytes i (a ∷ b ∷ c ∷ d ∷ []) ++ rest)
        ≡ some (exit_info i (a ∷ b ∷ c ∷ d ∷ []))
  read_uei-bytes a b c d =
      read_uei-eq (uei_bytes i (a ∷ b ∷ c ∷ d ∷ []) ++ rest) (exit_info i (a ∷ b ∷ c ∷ d ∷ []))
        (omega (arith, tail_length)) (omega (arith, h.kind_fits)) refl (omega (arith, h.code_fits))
        tail_reason tail_msg

go_string-first : (s rest : Bytes) → All (other_than 0) s → go_string (s ++ (0 ∷ rest)) ≡ some s
go_string-first [] rest a = ground arith
go_string-first (c ∷ s) rest (h, a) = ground (arith, go_string-first s rest a)

-- A character array that holds a text, its 0 and whatever else.
abbrev pub c_array : Bytes → Bytes → Bytes
c_array text fill = text ++ (0 ∷ fill)

abbrev pub exit_record : ℕ → ℕ → Bytes → Bytes → Bytes → Bytes → UserExitInfoC
exit_record kind code reason fill msg fill' = record {
  kind = kind;
  exit_code = code;
  reason = c_array reason fill;
  msg = c_array msg fill';
}

-- What Go makes of the bytes of a map.
pub record ReadAs (i : UserExitInfoC) (reason msg b : Bytes) : Type 0 where
  pub info : UserExitInfo
  pub read : get_uei_data true (some b) ≡ some info
  pub kind_same : info.kind ≡ i.kind
  pub code_same : info.exit_code ≡ i.exit_code
  pub reason_same : get_reason info ≡ some reason
  pub message_same : get_message info ≡ some msg
  pub stops : stopped true (some b) ≡ (not (i.kind == 0) || not (i.exit_code == 0))

-- The padding, a byte at a time.
read_uei-padded :
    (i : UserExitInfoC) (padding rest : Bytes)
    → ExitFits i
    → length padding ≡ 4
    → read_uei (uei_bytes i padding ++ rest) ≡ some (exit_info i padding)
read_uei-padded i (a ∷ b ∷ c ∷ d ∷ []) rest h e = read_uei-bytes i rest h a b c d
read_uei-padded i [] rest h e = absurd (omega arith)
read_uei-padded i (a ∷ []) rest h e = absurd (omega arith)
read_uei-padded i (a ∷ b ∷ []) rest h e = absurd (omega arith)
read_uei-padded i (a ∷ b ∷ c ∷ []) rest h e = absurd (omega arith)
read_uei-padded i (a ∷ b ∷ c ∷ d ∷ x ∷ p) rest h e = absurd (omega arith)

-- What Stopped answers for a record.
pub stopped-uei_bytes :
    (i : UserExitInfoC) (padding rest : Bytes)
    → ExitFits i
    → length padding ≡ 4
    → stopped true (some (uei_bytes i padding ++ rest))
      ≡ (not (i.kind == 0) || not (i.exit_code == 0))
unfolding stopped get_uei_data
stopped-uei_bytes i padding rest h e = rw (read_uei-padded i padding rest h e) refl

-- An exit record as C lays it out, whatever its four bytes of padding hold and whatever follows it in the
-- map, with a reason and a message that end in their arrays: Go reads the kind, the code, the reason and
-- the message as they were written, and takes the scheduler for stopped exactly if the kind or the code is
-- not 0.
pub get_uei_data-uei_bytes :
    (kind code : ℕ) (reason fill msg fill' padding rest : Bytes)
    → ExitFits (exit_record kind code reason fill msg fill')
    → All (other_than 0) reason
    → All (other_than 0) msg
    → length padding ≡ 4
    → ReadAs
        (exit_record kind code reason fill msg fill')
        reason
        msg
        (uei_bytes (exit_record kind code reason fill msg fill') padding ++ rest)
unfolding get_uei_data get_reason get_message
get_uei_data-uei_bytes kind code reason fill msg fill' padding rest h r m e =
    let i = exit_record kind code reason fill msg fill' in
    record {
      info = exit_info i padding;
      read = read_uei-padded i padding rest h e;
      kind_same = refl;
      code_same = refl;
      reason_same =
          rw (append_assoc reason (0 ∷ fill) (c_array msg fill'))
            (go_string-first reason (fill ++ c_array msg fill') r);
      message_same = go_string-first msg fill' m;
      stops = stopped-uei_bytes i padding rest h e;
    }
