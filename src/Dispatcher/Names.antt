-- ===== src/Dispatcher/Names.antt =====
-- The mnemonics that the dispatcher of src/instr.c knows, `inss`.
use mathlib.Core.List.{List, [], ◌∷◌}
use Prim.Native.String.{String}

abbrev pub inss : List String
inss =
    "aaa" ∷ "aad" ∷ "aam" ∷ "aas" ∷ "adc" ∷ "add" ∷ "and" ∷ "arpl" ∷ "bound" ∷ "bsf" ∷ "bsr" ∷ "bt"
    ∷ "btc" ∷ "btr" ∷ "bts" ∷ "call" ∷ "cbw" ∷ "cwde" ∷ "clc" ∷ "cld" ∷ "cli" ∷ "clts" ∷ "cmc"
    ∷ "cmp" ∷ "cmpsb" ∷ "cmpsw" ∷ "cmpsd" ∷ "cwd" ∷ "cdq" ∷ "daa" ∷ "das" ∷ "dec" ∷ "div" ∷ "hlt"
    ∷ "idiv" ∷ "imul" ∷ "in" ∷ "inc" ∷ "ins" ∷ "insb" ∷ "insw" ∷ "insd" ∷ "int" ∷ "into" ∷ "iret"
    ∷ "iretd" ∷ "ja" ∷ "jae" ∷ "jb" ∷ "jbe" ∷ "jc" ∷ "jcxz" ∷ "jecxz_i" ∷ "je" ∷ "jg" ∷ "jge" ∷ "jl"
    ∷ "jle" ∷ "jmp" ∷ "jna" ∷ "jnae" ∷ "jnb" ∷ "jnbe" ∷ "jnc" ∷ "jne" ∷ "jng" ∷ "jnge" ∷ "jnl"
    ∷ "jnle" ∷ "jno" ∷ "jnp" ∷ "jns" ∷ "jo" ∷ "jp" ∷ "jpe" ∷ "jpo" ∷ "js" ∷ "jz" ∷ "lahf" ∷ "lar"
    ∷ "lea" ∷ "leave" ∷ "lgdt" ∷ "lidt" ∷ "les" ∷ "lfs" ∷ "lgs" ∷ "lds" ∷ "lss" ∷ "lldt" ∷ "lmsw"
    ∷ "lock" ∷ "lods" ∷ "lodsb" ∷ "lodsw" ∷ "lodsd" ∷ "loop" ∷ "loope" ∷ "loopne" ∷ "loopnz"
    ∷ "loopz" ∷ "lsl" ∷ "ltr" ∷ "mov" ∷ "movs" ∷ "movsb" ∷ "movsw" ∷ "movsd" ∷ "movsx" ∷ "movzx"
    ∷ "mul" ∷ "neg" ∷ "nop" ∷ "not" ∷ "or" ∷ "out" ∷ "outs" ∷ "outsb" ∷ "outsw" ∷ "outsd" ∷ "pop"
    ∷ "popa" ∷ "popad" ∷ "popf" ∷ "popfd" ∷ "push" ∷ "pusha" ∷ "pushad" ∷ "pushf" ∷ "pushfd" ∷ "rcl"
    ∷ "rcr" ∷ "rol" ∷ "ror" ∷ "ret" ∷ "sahf" ∷ "sal" ∷ "sar" ∷ "shl" ∷ "shr" ∷ "sbb" ∷ "scas"
    ∷ "scasb" ∷ "scasw" ∷ "scasd" ∷ "seta" ∷ "setae" ∷ "setb" ∷ "setbe" ∷ "setc" ∷ "sete" ∷ "setg"
    ∷ "setge" ∷ "setl" ∷ "setle" ∷ "setna" ∷ "setnae" ∷ "setnb" ∷ "setnbe" ∷ "setnc" ∷ "setne"
    ∷ "setng" ∷ "setnge" ∷ "setnl" ∷ "setnle" ∷ "setno" ∷ "setnp" ∷ "setns" ∷ "seto" ∷ "setp"
    ∷ "setpe" ∷ "setpo" ∷ "sets" ∷ "setz" ∷ "sgdt" ∷ "sidt" ∷ "shld" ∷ "shrd" ∷ "sldt" ∷ "smsw"
    ∷ "stc" ∷ "std" ∷ "sti" ∷ "stos" ∷ "stosb" ∷ "stosw" ∷ "stosd" ∷ "sub" ∷ "test" ∷ "verr"
    ∷ "verw" ∷ "wait" ∷ "xchg" ∷ "xlat" ∷ "xlatb" ∷ "xor" ∷ "rep ins" ∷ "rep movsb" ∷ "rep movsw"
    ∷ "rep movsd" ∷ "rep outs" ∷ "rep stosb" ∷ "rep stosw" ∷ "rep stosd" ∷ "" ∷ []
