-- ===== src/Symtab/Strings.antt =====
-- The buffers that hold the names (symtab.c, `stringspace_copy`).
use exec.Base.{◌+◌, ◌<◌, ◌≤◌, ◌≡◌, arith, some, length, Bool-cases, inl, inr, ltb}
use exec.Base.Word.{add32, low}
use exec.Symtab.{CString, StringSpace, stringspace_copy, max_stringspace}

-- A string shorter than a stringspace is copied within one: when no more than a stringspace is
-- used, `stringspace_copy` succeeds, and no more than a stringspace is used after it.
pub stringspace_copy-some :
    (string : CString) (ss : StringSpace)
    → length string < max_stringspace
    → ss.used ≤ max_stringspace
    → (after : StringSpace) × (stringspace_copy string ss ≡ some after)
      × (after.used ≤ max_stringspace)
unfolding stringspace_copy
stringspace_copy-some string ss short used =
    elim (Bool-cases (ltb max_stringspace (add32 ss.used (low (length string + 1) 32)))) [
      | inl full ↦
          (record { used = length string + 1; spaces = ss.spaces + 1 }, ground arith, omega arith)
      | inr room ↦ (record ss { used = ss.used + (length string + 1) }, ground arith, ground arith)
    ]
