-- ===== src/Assemble/Evm.antt =====
-- isa/evm/mod.rs: the methods of `LowerBackend` that the assembler calls, for the EVM. An opcode is
-- its byte.
mod Examples
use sonatina.Base.{
  ℕ, ◌+◌, ◌/◌, ◌%◌, ◌^◌, ◌≡◌, refl, sym, ap, ◌∙◌, Bool, true, false, Option, none, some, List, [],
  ◌∷◌, ◌==◌, leb, if◌then◌else◌, length, arith, ◌>>=◌, >>=-eq-some,
}
use mathlib.Core.Option.{some-injective}
use sonatina.Assemble.{Backend}
use sonatina.Assemble.Placed.{IsBackend}

-- `PUSH0` is 0x5f.
pub push_op : ℕ → Option ℕ
push_op bytes = if leb bytes 32 then some (95 + bytes) else none

-- `skip_while(|b| *b == 0)`
abbrev pub skip_zeros : List ℕ → List ℕ
skip_zeros [] = []
skip_zeros (b ∷ bs) = let rest = skip_zeros bs in if b == 0 then rest else b ∷ bs

abbrev pub to_be_bytes : ℕ → List ℕ
to_be_bytes a = a / 2 ^ 24 % 256 ∷ a / 2 ^ 16 % 256 ∷ a / 2 ^ 8 % 256 ∷ a % 256 ∷ []

pub emit_label : ℕ → List ℕ
emit_label address = skip_zeros (to_be_bytes address)

pub update_opcode_with_label : ℕ → ℕ → Option (ℕ × List ℕ)
unfolding push_op
update_opcode_with_label opcode label_offset =
    let bytes = skip_zeros (to_be_bytes label_offset) in
    push_op (length bytes) >>= λ op. some (op, bytes)

pub update_opcode_with_immediate_bytes : ℕ → List ℕ → Option (ℕ × List ℕ)
unfolding push_op
update_opcode_with_immediate_bytes opcode bytes = push_op (length bytes) >>= λ op. some (op, bytes)

pub emit_opcode : ℕ → List ℕ
emit_opcode opcode = opcode ∷ []

pub emit_immediate_bytes : List ℕ → List ℕ
emit_immediate_bytes bytes = bytes

abbrev pub evm_backend : Backend ℕ
evm_backend = record {
  size_of_op = 1;
  update_opcode_with_immediate_bytes = update_opcode_with_immediate_bytes;
  update_opcode_with_label = update_opcode_with_label;
  emit_opcode = emit_opcode;
  emit_immediate_bytes = emit_immediate_bytes;
  emit_label = emit_label;
}

pub evm_backend-IsBackend : IsBackend evm_backend
unfolding update_opcode_with_label update_opcode_with_immediate_bytes emit_opcode
    emit_immediate_bytes emit_label
evm_backend-IsBackend = record {
  opcode_law = λ op. refl;
  label_law = λ op address r h.
      let (p, hp, e) = >>=-eq-some (push_op (length (skip_zeros (to_be_bytes address)))) _ h in
      ap (λ q. length q.1) (sym (some-injective _ _ e));
  bytes_law = λ op bytes r h.
      let (p, hp, e) = >>=-eq-some (push_op (length bytes)) _ h in
      ap (λ q. length q.1) (sym (some-injective _ _ e));
  emit_law = λ bytes. refl;
}
