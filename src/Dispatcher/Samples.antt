-- ===== src/Dispatcher/Samples.antt =====
-- A host for the tests, with no device and with system calls that do nothing.
use vm_i386_32bit.Base.{false, some}
use vm_i386_32bit.Instr.Port.{Ports}
use vm_i386_32bit.Dispatcher.Handlers.{Host}

abbrev pub no_ports : Ports
no_ports = record { opened = false; pread = λ n port. (0, 0); pwrite = λ n port x. 0 }

abbrev pub idle_host : Host
idle_host = record { ports = no_ports; syscalls = λ n c. some (c, 0); leftover = 0 }
