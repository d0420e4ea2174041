-- ===== src/SyscallArgs/Tables/X8632/From342.antt =====
-- scripts/syscall_args/syscall-tables/X86.py: the calls from 0x156 to 0x15d.
use gef_extras.Common.{[], ◌∷◌}
use gef_extras.SyscallArgs.{Table}
use gef_extras.SyscallArgs.Tables.{row, param}

abbrev pub from_342 : Table
from_342 =
    row 0x156 "open_by_handle_at" (
      param "$ebx" "int mountdirfd"
      ∷ param "$ecx" "struct file_handle *handle"
      ∷ param "$edx" "int flags"
      ∷ [])
    ∷ row 0x157 "clock_adjtime"
        (param "$ebx" "const clockid_t which_clock" ∷ param "$ecx" "struct timex *utx" ∷ [])
    ∷ row 0x158 "syncfs" (param "$ebx" "int fd" ∷ [])
    ∷ row 0x159 "sendmmsg" (
        param "$ebx" "int fd"
        ∷ param "$ecx" "struct mmsghdr *mmsg"
        ∷ param "$edx" "unsigned int vlen"
        ∷ param "$esi" "unsigned int flags"
        ∷ [])
    ∷ row 0x15a "setns" (param "$ebx" "int fd" ∷ param "$ecx" "int nstype" ∷ [])
    ∷ row 0x15b "process_vm_readv" (
        param "$ebx" "pid_t pid"
        ∷ param "$ecx" "const struct iovec *lvec"
        ∷ param "$edx" "unsigned long liovcnt"
        ∷ param "$esi" "const struct iovec *rvec"
        ∷ param "$edi" "unsigned long riovcnt"
        ∷ param "$ebp" "unsigned long flags"
        ∷ [])
    ∷ row 0x15c "process_vm_writev" (
        param "$ebx" "pid_t pid"
        ∷ param "$ecx" "const struct iovec *lvec"
        ∷ param "$edx" "unsigned long liovcnt"
        ∷ param "$esi" "const struct iovec *rvec"
        ∷ param "$edi" "unsigned long riovcnt"
        ∷ param "$ebp" "unsigned long flags"
        ∷ [])
    ∷ row 0x15d "kcmp" (
        param "$ebx" "pid_t pid1"
        ∷ param "$ecx" "pid_t pid2"
        ∷ param "$edx" "int type"
        ∷ param "$esi" "unsigned long idx1"
        ∷ param "$edi" "unsigned long idx2"
        ∷ [])
    ∷ []
