-- ===== src/SyscallArgs/Tables/X8632/From72.antt =====
-- scripts/syscall_args/syscall-tables/X86.py: the calls from 0x48 to 0x8c.
use gef_extras.Common.{[], ◌∷◌}
use gef_extras.SyscallArgs.{Table}
use gef_extras.SyscallArgs.Tables.{row, param}

abbrev pub from_72 : Table
from_72 =
    row 0x48 "sigsuspend" (
      param "$ebx" "int history0"
      ∷ param "$ecx" "int history1"
      ∷ param "$edx" "old_sigset_t mask"
      ∷ [])
    ∷ row 0x49 "sigpending" (param "$ebx" "old_sigset_t *set" ∷ [])
    ∷ row 0x4a "sethostname" (param "$ebx" "char *name" ∷ param "$ecx" "int len" ∷ [])
    ∷ row 0x4b "setrlimit"
        (param "$ebx" "unsigned int resource" ∷ param "$ecx" "struct rlimit *rlim" ∷ [])
    ∷ row 0x4c "getrlimit"
        (param "$ebx" "unsigned int resource" ∷ param "$ecx" "struct rlimit *rlim" ∷ [])
    ∷ row 0x4d "getrusage" (param "$ebx" "int who" ∷ param "$ecx" "struct rusage *ru" ∷ [])
    ∷ row 0x4e "gettimeofday"
        (param "$ebx" "struct timeval *tv" ∷ param "$ecx" "struct timezone *tz" ∷ [])
    ∷ row 0x4f "settimeofday"
        (param "$ebx" "struct timeval *tv" ∷ param "$ecx" "struct timezone *tz" ∷ [])
    ∷ row 0x50 "getgroups" (param "$ebx" "int gidsetsize" ∷ param "$ecx" "gid_t *grouplist" ∷ [])
    ∷ row 0x51 "setgroups" (param "$ebx" "int gidsetsize" ∷ param "$ecx" "gid_t *grouplist" ∷ [])
    ∷ row 0x52 "select" (
        param "$ebx" "int n"
        ∷ param "$ecx" "fd_set *inp"
        ∷ param "$edx" "fd_set *outp"
        ∷ param "$esi" "fd_set *exp"
        ∷ param "$edi" "struct timeval *tvp"
        ∷ [])
    ∷ row 0x53 "symlink"
        (param "$ebx" "const char *oldname" ∷ param "$ecx" "const char *newname" ∷ [])
    ∷ row 0x54 "oldlstat" (
        param "$ebx" "const char *filename" ∷ param "$ecx" "struct __old_kernel_stat *statbuf" ∷ [])
    ∷ row 0x55 "readlink" (
        param "$ebx" "const char *path" ∷ param "$ecx" "char *buf" ∷ param "$edx" "int bufsiz" ∷ [])
    ∷ row 0x56 "uselib" (param "$ebx" "const char *library" ∷ [])
    ∷ row 0x57 "swapon"
        (param "$ebx" "const char *specialfile" ∷ param "$ecx" "int swap_flags" ∷ [])
    ∷ row 0x58 "reboot" (
        param "$ebx" "int magic1"
        ∷ param "$ecx" "int magic2"
        ∷ param "$edx" "unsigned int cmd"
        ∷ param "$esi" "void *arg"
        ∷ [])
    ∷ row 0x59 "readdir" (
        param "$ebx" "unsigned int fd"
        ∷ param "$ecx" "struct old_linux_dirent *dirent"
        ∷ param "$edx" "unsigned int count"
        ∷ [])
    ∷ row 0x5a "mmap" (
        param "$ebx" "unsigned long addr"
        ∷ param "$ecx" "unsigned long len"
        ∷ param "$edx" "unsigned long prot"
        ∷ param "$esi" "unsigned long flags"
        ∷ param "$edi" "unsigned long fd"
        ∷ param "$ebp" "unsigned long off"
        ∷ [])
    ∷ row 0x5b "munmap" (param "$ebx" "unsigned long addr" ∷ param "$ecx" "size_t len" ∷ [])
    ∷ row 0x5c "truncate" (param "$ebx" "const char *path" ∷ param "$ecx" "long length" ∷ [])
    ∷ row 0x5d "ftruncate"
        (param "$ebx" "unsigned int fd" ∷ param "$ecx" "unsigned long length" ∷ [])
    ∷ row 0x5e "fchmod" (param "$ebx" "unsigned int fd" ∷ param "$ecx" "umode_t mode" ∷ [])
    ∷ row 0x5f "fchown" (
        param "$ebx" "unsigned int fd"
        ∷ param "$ecx" "uid_t user"
        ∷ param "$edx" "gid_t group"
        ∷ [])
    ∷ row 0x60 "getpriority" (param "$ebx" "int which" ∷ param "$ecx" "int who" ∷ [])
    ∷ row 0x61 "setpriority"
        (param "$ebx" "int which" ∷ param "$ecx" "int who" ∷ param "$edx" "int niceval" ∷ [])
    ∷ row 0x63 "statfs"
        (param "$ebx" "const char *pathname" ∷ param "$ecx" "struct statfs *buf" ∷ [])
    ∷ row 0x64 "fstatfs" (param "$ebx" "unsigned int fd" ∷ param "$ecx" "struct statfs *buf" ∷ [])
    ∷ row 0x65 "ioperm" (
        param "$ebx" "unsigned long from"
        ∷ param "$ecx" "unsigned long num"
        ∷ param "$edx" "int turn_on"
        ∷ [])
    ∷ row 0x66 "socketcall" (param "$ebx" "int call" ∷ param "$ecx" "unsigned long *args" ∷ [])
    ∷ row 0x67 "syslog"
        (param "$ebx" "int type" ∷ param "$ecx" "char *buf" ∷ param "$edx" "int len" ∷ [])
    ∷ row 0x68 "setitimer" (
        param "$ebx" "int which"
        ∷ param "$ecx" "struct itimerval *value"
        ∷ param "$edx" "struct itimerval *ovalue"
        ∷ [])
    ∷ row 0x69 "getitimer" (param "$ebx" "int which" ∷ param "$ecx" "struct itimerval *value" ∷ [])
    ∷ row 0x6a "stat" (
        param "$ebx" "const char *filename" ∷ param "$ecx" "struct __old_kernel_stat *statbuf" ∷ [])
    ∷ row 0x6b "lstat" (
        param "$ebx" "const char *filename" ∷ param "$ecx" "struct __old_kernel_stat *statbuf" ∷ [])
    ∷ row 0x6c "fstat"
        (param "$ebx" "unsigned int fd" ∷ param "$ecx" "struct __old_kernel_stat *statbuf" ∷ [])
    ∷ row 0x6d "olduname" (param "$ebx" "struct oldold_utsname *name" ∷ [])
    ∷ row 0x6e "iopl" (param "$ebx" "unsigned int level" ∷ [])
    ∷ row 0x6f "vhangup" ([])
    ∷ row 0x71 "vm86old" (param "$ebx" "struct vm86_struct *v86" ∷ [])
    ∷ row 0x72 "wait4" (
        param "$ebx" "pid_t upid"
        ∷ param "$ecx" "int *stat_addr"
        ∷ param "$edx" "int options"
        ∷ param "$esi" "struct rusage *ru"
        ∷ [])
    ∷ row 0x73 "swapoff" (param "$ebx" "const char *specialfile" ∷ [])
    ∷ row 0x74 "sysinfo" (param "$ebx" "struct sysinfo *info" ∷ [])
    ∷ row 0x75 "ipc" (
        param "$ebx" "unsigned int call"
        ∷ param "$ecx" "int first"
        ∷ param "$edx" "unsigned long second"
        ∷ param "$esi" "unsigned long third"
        ∷ param "$edi" "void *ptr"
        ∷ param "$ebp" "long fifth"
        ∷ [])
    ∷ row 0x76 "fsync" (param "$ebx" "unsigned int fd" ∷ [])
    ∷ row 0x77 "sigreturn" ([])
    ∷ row 0x78 "clone" (
        param "$ebx" "unsigned long clone_flags"
        ∷ param "$ecx" "unsigned long newsp"
        ∷ param "$edx" "void *parent_tid"
        ∷ param "$esi" "void *child_tid"
        ∷ [])
    ∷ row 0x79 "setdomainname" (param "$ebx" "char *name" ∷ param "$ecx" "int len" ∷ [])
    ∷ row 0x7a "uname" (param "$ebx" "struct old_utsname *name" ∷ [])
    ∷ row 0x7b "modify_ldt" (
        param "$ebx" "int func"
        ∷ param "$ecx" "void *ptr"
        ∷ param "$edx" "unsigned long bytecount"
        ∷ [])
    ∷ row 0x7c "adjtimex" (param "$ebx" "struct timex *txc_p" ∷ [])
    ∷ row 0x7d "mprotect" (
        param "$ebx" "unsigned long start"
        ∷ param "$ecx" "size_t len"
        ∷ param "$edx" "unsigned long prot"
        ∷ [])
    ∷ row 0x7e "sigprocmask" (
        param "$ebx" "int how"
        ∷ param "$ecx" "old_sigset_t *nset"
        ∷ param "$edx" "old_sigset_t *oset"
        ∷ [])
    ∷ row 0x80 "init_module" (
        param "$ebx" "void *umod"
        ∷ param "$ecx" "unsigned long len"
        ∷ param "$edx" "const char *uargs"
        ∷ [])
    ∷ row 0x81 "delete_module"
        (param "$ebx" "const char *name_user" ∷ param "$ecx" "unsigned int flags" ∷ [])
    ∷ row 0x83 "quotactl" (
        param "$ebx" "unsigned int cmd"
        ∷ param "$ecx" "const char *special"
        ∷ param "$edx" "qid_t id"
        ∷ param "$esi" "void *addr"
        ∷ [])
    ∷ row 0x84 "getpgid" (param "$ebx" "pid_t pid" ∷ [])
    ∷ row 0x85 "fchdir" (param "$ebx" "unsigned int fd" ∷ [])
    ∷ row 0x86 "bdflush" (param "$ebx" "int func" ∷ param "$ecx" "long data" ∷ [])
    ∷ row 0x87 "sysfs" (
        param "$ebx" "int option"
        ∷ param "$ecx" "unsigned long arg1"
        ∷ param "$edx" "unsigned long arg2"
        ∷ [])
    ∷ row 0x88 "personality" (param "$ebx" "unsigned int personality" ∷ [])
    ∷ row 0x8a "setfsuid" (param "$ebx" "uid_t uid" ∷ [])
    ∷ row 0x8b "setfsgid" (param "$ebx" "gid_t gid" ∷ [])
    ∷ row 0x8c "_llseek" (
        param "$ebx" "unsigned int fd"
        ∷ param "$ecx" "unsigned long offset_high"
        ∷ param "$edx" "unsigned long offset_low"
        ∷ param "$esi" "loff_t *result"
        ∷ param "$edi" "unsigned int origin"
        ∷ [])
    ∷ []
