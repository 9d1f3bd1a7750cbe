-- ===== src/Printf.antt =====
-- uklib/io_buffer/vsnprintf.c. The bytes are those passed to `__iob_write`, in order; what it
-- returns is ignored by the source.
pub mod Number
pub mod Directive
pub mod RoundTrip
pub mod Text
mod Tests
