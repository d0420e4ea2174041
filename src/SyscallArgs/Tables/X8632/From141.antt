-- ===== src/SyscallArgs/Tables/X8632/From141.antt =====
-- scripts/syscall_args/syscall-tables/X86.py: the calls from 0x8d to 0xd0.
use gef_extras.Common.{[], ◌∷◌}
use gef_extras.SyscallArgs.{Table}
use gef_extras.SyscallArgs.Tables.{row, param}

abbrev pub from_141 : Table
from_141 =
    row 0x8d "getdents" (
      param "$ebx" "unsigned int fd"
      ∷ param "$ecx" "struct linux_dirent *dirent"
      ∷ param "$edx" "unsigned int count"
      ∷ [])
    ∷ row 0x8e "_newselect" (
        param "$ebx" "int n"
        ∷ param "$ecx" "fd_set *inp"
        ∷ param "$edx" "fd_set *outp"
        ∷ param "$esi" "fd_set *exp"
        ∷ param "$edi" "struct timeval *tvp"
        ∷ [])
    ∷ row 0x8f "flock" (param "$ebx" "unsigned int fd" ∷ param "$ecx" "unsigned int cmd" ∷ [])
    ∷ row 0x90 "msync" (
        param "$ebx" "unsigned long start"
        ∷ param "$ecx" "size_t len"
        ∷ param "$edx" "int flags"
        ∷ [])
    ∷ row 0x91 "readv" (
        param "$ebx" "unsigned long fd"
        ∷ param "$ecx" "const struct iovec *vec"
        ∷ param "$edx" "unsigned long vlen"
        ∷ [])
    ∷ row 0x92 "writev" (
        param "$ebx" "unsigned long fd"
        ∷ param "$ecx" "const struct iovec *vec"
        ∷ param "$edx" "unsigned long vlen"
        ∷ [])
    ∷ row 0x93 "getsid" (param "$ebx" "pid_t pid" ∷ [])
    ∷ row 0x94 "fdatasync" (param "$ebx" "unsigned int fd" ∷ [])
    ∷ row 0x95 "_sysctl" (param "$ebx" "struct __sysctl_args *args" ∷ [])
    ∷ row 0x96 "mlock" (param "$ebx" "unsigned long start" ∷ param "$ecx" "size_t len" ∷ [])
    ∷ row 0x97 "munlock" (param "$ebx" "unsigned long start" ∷ param "$ecx" "size_t len" ∷ [])
    ∷ row 0x98 "mlockall" (param "$ebx" "int flags" ∷ [])
    ∷ row 0x99 "munlockall" ([])
    ∷ row 0x9a "sched_setparam"
        (param "$ebx" "pid_t pid" ∷ param "$ecx" "struct sched_param *param" ∷ [])
    ∷ row 0x9b "sched_getparam"
        (param "$ebx" "pid_t pid" ∷ param "$ecx" "struct sched_param *param" ∷ [])
    ∷ row 0x9c "sched_setscheduler" (
        param "$ebx" "pid_t pid"
        ∷ param "$ecx" "int policy"
        ∷ param "$edx" "struct sched_param *param"
        ∷ [])
    ∷ row 0x9d "sched_getscheduler" (param "$ebx" "pid_t pid" ∷ [])
    ∷ row 0x9e "sched_yield" ([])
    ∷ row 0x9f "sched_get_priority_max" (param "$ebx" "int policy" ∷ [])
    ∷ row 0xa0 "sched_get_priority_min" (param "$ebx" "int policy" ∷ [])
    ∷ row 0xa1 "sched_rr_get_interval"
        (param "$ebx" "pid_t pid" ∷ param "$ecx" "struct timespec *interval" ∷ [])
    ∷ row 0xa2 "nanosleep"
        (param "$ebx" "struct timespec *rqtp" ∷ param "$ecx" "struct timespec *rmtp" ∷ [])
    ∷ row 0xa3 "mremap" (
        param "$ebx" "unsigned long addr"
        ∷ param "$ecx" "unsigned long old_len"
        ∷ param "$edx" "unsigned long new_len"
        ∷ param "$esi" "unsigned long flags"
        ∷ param "$edi" "unsigned long new_addr"
        ∷ [])
    ∷ row 0xa4 "setresuid"
        (param "$ebx" "uid_t ruid" ∷ param "$ecx" "uid_t euid" ∷ param "$edx" "uid_t suid" ∷ [])
    ∷ row 0xa5 "getresuid" (
        param "$ebx" "uid_t *ruidp"
        ∷ param "$ecx" "uid_t *euidp"
        ∷ param "$edx" "uid_t *suidp"
        ∷ [])
    ∷ row 0xa6 "vm86" (param "$ebx" "unsigned long cmd" ∷ param "$ecx" "unsigned long arg" ∷ [])
    ∷ row 0xa8 "poll" (
        param "$ebx" "struct pollfd *ufds"
        ∷ param "$ecx" "unsigned int nfds"
        ∷ param "$edx" "int timeout_msecs"
        ∷ [])
    ∷ row 0xaa "setresgid"
        (param "$ebx" "gid_t rgid" ∷ param "$ecx" "gid_t egid" ∷ param "$edx" "gid_t sgid" ∷ [])
    ∷ row 0xab "getresgid" (
        param "$ebx" "gid_t *rgidp"
        ∷ param "$ecx" "gid_t *egidp"
        ∷ param "$edx" "gid_t *sgidp"
        ∷ [])
    ∷ row 0xac "prctl" (
        param "$ebx" "int option"
        ∷ param "$ecx" "unsigned long arg2"
        ∷ param "$edx" "unsigned long arg3"
        ∷ param "$esi" "unsigned long arg4"
        ∷ param "$edi" "unsigned long arg5"
        ∷ [])
    ∷ row 0xad "rt_sigreturn" ([])
    ∷ row 0xae "rt_sigaction" (
        param "$ebx" "int sig"
        ∷ param "$ecx" "const struct sigaction *act"
        ∷ param "$edx" "struct sigaction *oact"
        ∷ param "$esi" "size_t sigsetsize"
        ∷ [])
    ∷ row 0xaf "rt_sigprocmask" (
        param "$ebx" "int how"
        ∷ param "$ecx" "sigset_t *nset"
        ∷ param "$edx" "sigset_t *oset"
        ∷ param "$esi" "size_t sigsetsize"
        ∷ [])
    ∷ row 0xb0 "rt_sigpending"
        (param "$ebx" "sigset_t *set" ∷ param "$ecx" "size_t sigsetsize" ∷ [])
    ∷ row 0xb1 "rt_sigtimedwait" (
        param "$ebx" "const sigset_t *uthese"
        ∷ param "$ecx" "siginfo_t *uinfo"
        ∷ param "$edx" "const struct timespec *uts"
        ∷ param "$esi" "size_t sigsetsize"
        ∷ [])
    ∷ row 0xb2 "rt_sigqueueinfo"
        (param "$ebx" "pid_t pid" ∷ param "$ecx" "int sig" ∷ param "$edx" "siginfo_t *uinfo" ∷ [])
    ∷ row 0xb3 "rt_sigsuspend"
        (param "$ebx" "sigset_t *unewset" ∷ param "$ecx" "size_t sigsetsize" ∷ [])
    ∷ row 0xb4 "pread64" (param "$ebx" "char *buf size_t count" ∷ param "$ecx" "loff_t pos" ∷ [])
    ∷ row 0xb5 "pwrite64"
        (param "$ebx" "const char *buf size_t count" ∷ param "$ecx" "loff_t pos" ∷ [])
    ∷ row 0xb6 "chown" (
        param "$ebx" "const char *filename"
        ∷ param "$ecx" "uid_t user"
        ∷ param "$edx" "gid_t group"
        ∷ [])
    ∷ row 0xb7 "getcwd" (param "$ebx" "char *buf" ∷ param "$ecx" "unsigned long size" ∷ [])
    ∷ row 0xb8 "capget"
        (param "$ebx" "cap_user_header_t header" ∷ param "$ecx" "cap_user_data_t dataptr" ∷ [])
    ∷ row 0xb9 "capset"
        (param "$ebx" "cap_user_header_t header" ∷ param "$ecx" "const cap_user_data_t data" ∷ [])
    ∷ row 0xba "sigaltstack" (param "$ebx" "const stack_t *uss" ∷ param "$ecx" "stack_t *uoss" ∷ [])
    ∷ row 0xbb "sendfile" (
        param "$ebx" "int out_fd"
        ∷ param "$ecx" "int in_fd"
        ∷ param "$edx" "off_t *offset"
        ∷ param "$esi" "size_t count"
        ∷ [])
    ∷ row 0xbe "vfork" ([])
    ∷ row 0xbf "ugetrlimit"
        (param "$ebx" "unsigned int resource" ∷ param "$ecx" "struct rlimit *rlim" ∷ [])
    ∷ row 0xc0 "mmap2" (
        param "$ebx" "unsigned long addr"
        ∷ param "$ecx" "unsigned long len"
        ∷ param "$edx" "unsigned long prot"
        ∷ param "$esi" "unsigned long flags"
        ∷ param "$edi" "unsigned long fd"
        ∷ param "$ebp" "unsigned long pgoff"
        ∷ [])
    ∷ row 0xc1 "truncate64" (param "$ebx" "loff_t length" ∷ [])
    ∷ row 0xc2 "ftruncate64" (param "$ebx" "loff_t length" ∷ [])
    ∷ row 0xc3 "stat64"
        (param "$ebx" "const char *filename" ∷ param "$ecx" "struct stat64 *statbuf" ∷ [])
    ∷ row 0xc4 "lstat64"
        (param "$ebx" "const char *filename" ∷ param "$ecx" "struct stat64 *statbuf" ∷ [])
    ∷ row 0xc5 "fstat64"
        (param "$ebx" "unsigned long fd" ∷ param "$ecx" "struct stat64 *statbuf" ∷ [])
    ∷ row 0xc6 "lchown32" (
        param "$ebx" "const char *filename"
        ∷ param "$ecx" "uid_t user"
        ∷ param "$edx" "gid_t group"
        ∷ [])
    ∷ row 0xc7 "getuid32" ([])
    ∷ row 0xc8 "getgid32" ([])
    ∷ row 0xc9 "geteuid32" ([])
    ∷ row 0xca "getegid32" ([])
    ∷ row 0xcb "setreuid32" (param "$ebx" "uid_t ruid" ∷ param "$ecx" "uid_t euid" ∷ [])
    ∷ row 0xcc "setregid32" (param "$ebx" "gid_t rgid" ∷ param "$ecx" "gid_t egid" ∷ [])
    ∷ row 0xcd "getgroups32" (param "$ebx" "int gidsetsize" ∷ param "$ecx" "gid_t *grouplist" ∷ [])
    ∷ row 0xce "setgroups32" (param "$ebx" "int gidsetsize" ∷ param "$ecx" "gid_t *grouplist" ∷ [])
    ∷ row 0xcf "fchown32" (
        param "$ebx" "unsigned int fd"
        ∷ param "$ecx" "uid_t user"
        ∷ param "$edx" "gid_t group"
        ∷ [])
    ∷ row 0xd0 "setresuid32"
        (param "$ebx" "uid_t ruid" ∷ param "$ecx" "uid_t euid" ∷ param "$edx" "uid_t suid" ∷ [])
    ∷ []
