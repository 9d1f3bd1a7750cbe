-- ===== src/Ctype/Tests.antt =====
-- Runs of uklib/ctype.c.
use cyanea.Prelude.{◌≡◌, arith}
use cyanea.Ctype.Ascii.{classes, ascii, classes-ascii}

-- The backspace.
classes-ascii_example : classes 8 ≡ ascii 8
classes-ascii_example = classes-ascii 8 (omega arith)
