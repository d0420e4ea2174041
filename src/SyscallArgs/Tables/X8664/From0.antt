-- ===== src/SyscallArgs/Tables/X8664/From0.antt =====
-- scripts/syscall_args/syscall-tables/X86_64.py: the calls from 0x0 to 0x3f.
use gef_extras.Common.{[], ◌∷◌}
use gef_extras.SyscallArgs.{Table}
use gef_extras.SyscallArgs.Tables.{row, param}

abbrev pub from_0 : Table
from_0 =
    row 0x0 "read"
      (param "$rdi" "unsigned int fd" ∷ param "$rsi" "char *buf" ∷ param "$rdx" "size_t count" ∷ [])
    ∷ row 0x1 "write" (
        param "$rdi" "unsigned int fd"
        ∷ param "$rsi" "const char *buf"
        ∷ param "$rdx" "size_t count"
        ∷ [])
    ∷ row 0x2 "open" (
        param "$rdi" "const char *filename"
        ∷ param "$rsi" "int flags"
        ∷ param "$rdx" "umode_t mode"
        ∷ [])
    ∷ row 0x3 "close" (param "$rdi" "unsigned int fd" ∷ [])
    ∷ row 0x4 "stat" (
        param "$rdi" "const char *filename" ∷ param "$rsi" "struct __old_kernel_stat *statbuf" ∷ [])
    ∷ row 0x5 "fstat"
        (param "$rdi" "unsigned int fd" ∷ param "$rsi" "struct __old_kernel_stat *statbuf" ∷ [])
    ∷ row 0x6 "lstat" (
        param "$rdi" "const char *filename" ∷ param "$rsi" "struct __old_kernel_stat *statbuf" ∷ [])
    ∷ row 0x7 "poll" (
        param "$rdi" "struct pollfd *ufds"
        ∷ param "$rsi" "unsigned int nfds"
        ∷ param "$rdx" "int timeout_msecs"
        ∷ [])
    ∷ row 0x8 "lseek" (
        param "$rdi" "unsigned int fd"
        ∷ param "$rsi" "off_t offset"
        ∷ param "$rdx" "unsigned int origin"
        ∷ [])
    ∷ row 0x9 "mmap" (
        param "$rdi" "unsigned long addr"
        ∷ param "$rsi" "unsigned long len"
        ∷ param "$rdx" "unsigned long prot"
        ∷ param "$r10" "unsigned long flags"
        ∷ param "$r8" "unsigned long fd"
        ∷ param "$r9" "unsigned long off"
        ∷ [])
    ∷ row 0xa "mprotect" (
        param "$rdi" "unsigned long start"
        ∷ param "$rsi" "size_t len"
        ∷ param "$rdx" "unsigned long prot"
        ∷ [])
    ∷ row 0xb "munmap" (param "$rdi" "unsigned long addr" ∷ param "$rsi" "size_t len" ∷ [])
    ∷ row 0xc "brk" (param "$rdi" "unsigned long brk" ∷ [])
    ∷ row 0xd "rt_sigaction" (
        param "$rdi" "int sig"
        ∷ param "$rsi" "const struct sigaction *act"
        ∷ param "$rdx" "struct sigaction *oact"
        ∷ param "$r10" "size_t sigsetsize"
        ∷ [])
    ∷ row 0xe "rt_sigprocmask" (
        param "$rdi" "int how"
        ∷ param "$rsi" "sigset_t *nset"
        ∷ param "$rdx" "sigset_t *oset"
        ∷ param "$r10" "size_t sigsetsize"
        ∷ [])
    ∷ row 0xf "rt_sigreturn" ([])
    ∷ row 0x10 "ioctl" (
        param "$rdi" "unsigned int fd"
        ∷ param "$rsi" "unsigned int cmd"
        ∷ param "$rdx" "unsigned long arg"
        ∷ [])
    ∷ row 0x11 "pread64" (param "$rdi" "char *buf size_t count" ∷ param "$rsi" "loff_t pos" ∷ [])
    ∷ row 0x12 "pwrite64"
        (param "$rdi" "const char *buf size_t count" ∷ param "$rsi" "loff_t pos" ∷ [])
    ∷ row 0x13 "readv" (
        param "$rdi" "unsigned long fd"
        ∷ param "$rsi" "const struct iovec *vec"
        ∷ param "$rdx" "unsigned long vlen"
        ∷ [])
    ∷ row 0x14 "writev" (
        param "$rdi" "unsigned long fd"
        ∷ param "$rsi" "const struct iovec *vec"
        ∷ param "$rdx" "unsigned long vlen"
        ∷ [])
    ∷ row 0x15 "access" (param "$rdi" "const char *filename" ∷ param "$rsi" "int mode" ∷ [])
    ∷ row 0x16 "pipe" (param "$rdi" "int *fildes" ∷ [])
    ∷ row 0x17 "select" (
        param "$rdi" "int n"
        ∷ param "$rsi" "fd_set *inp"
        ∷ param "$rdx" "fd_set *outp"
        ∷ param "$r10" "fd_set *exp"
        ∷ param "$r8" "struct timeval *tvp"
        ∷ [])
    ∷ row 0x18 "sched_yield" ([])
    ∷ row 0x19 "mremap" (
        param "$rdi" "unsigned long addr"
        ∷ param "$rsi" "unsigned long old_len"
        ∷ param "$rdx" "unsigned long new_len"
        ∷ param "$r10" "unsigned long flags"
        ∷ param "$r8" "unsigned long new_addr"
        ∷ [])
    ∷ row 0x1a "msync" (
        param "$rdi" "unsigned long start"
        ∷ param "$rsi" "size_t len"
        ∷ param "$rdx" "int flags"
        ∷ [])
    ∷ row 0x1b "mincore" (
        param "$rdi" "unsigned long start"
        ∷ param "$rsi" "size_t len"
        ∷ param "$rdx" "unsigned char *vec"
        ∷ [])
    ∷ row 0x1c "madvise" (
        param "$rdi" "unsigned long start"
        ∷ param "$rsi" "size_t len_in"
        ∷ param "$rdx" "int behavior"
        ∷ [])
    ∷ row 0x1d "shmget"
        (param "$rdi" "key_t key" ∷ param "$rsi" "size_t size" ∷ param "$rdx" "int shmflg" ∷ [])
    ∷ row 0x1e "shmat"
        (param "$rdi" "int shmid" ∷ param "$rsi" "char *shmaddr" ∷ param "$rdx" "int shmflg" ∷ [])
    ∷ row 0x1f "shmctl" (
        param "$rdi" "int shmid"
        ∷ param "$rsi" "int cmd"
        ∷ param "$rdx" "struct shmid_ds *buf"
        ∷ [])
    ∷ row 0x20 "dup" (param "$rdi" "unsigned int fildes" ∷ [])
    ∷ row 0x21 "dup2" (param "$rdi" "unsigned int oldfd" ∷ param "$rsi" "unsigned int newfd" ∷ [])
    ∷ row 0x22 "pause" ([])
    ∷ row 0x23 "nanosleep"
        (param "$rdi" "struct timespec *rqtp" ∷ param "$rsi" "struct timespec *rmtp" ∷ [])
    ∷ row 0x24 "getitimer" (param "$rdi" "int which" ∷ param "$rsi" "struct itimerval *value" ∷ [])
    ∷ row 0x25 "alarm" (param "$rdi" "unsigned int seconds" ∷ [])
    ∷ row 0x26 "setitimer" (
        param "$rdi" "int which"
        ∷ param "$rsi" "struct itimerval *value"
        ∷ param "$rdx" "struct itimerval *ovalue"
        ∷ [])
    ∷ row 0x27 "getpid" ([])
    ∷ row 0x28 "sendfile" (
        param "$rdi" "int out_fd"
        ∷ param "$rsi" "int in_fd"
        ∷ param "$rdx" "off_t *offset"
        ∷ param "$r10" "size_t count"
        ∷ [])
    ∷ row 0x29 "socket"
        (param "$rdi" "int family" ∷ param "$rsi" "int type" ∷ param "$rdx" "int protocol" ∷ [])
    ∷ row 0x2a "connect" (
        param "$rdi" "int fd"
        ∷ param "$rsi" "struct sockaddr *uservaddr"
        ∷ param "$rdx" "int addrlen"
        ∷ [])
    ∷ row 0x2b "accept" (
        param "$rdi" "int fd"
        ∷ param "$rsi" "struct sockaddr *upeer_sockaddr"
        ∷ param "$rdx" "int *upeer_addrlen"
        ∷ [])
    ∷ row 0x2c "sendto" (
        param "$rdi" "int fd"
        ∷ param "$rsi" "void *buff"
        ∷ param "$rdx" "size_t len"
        ∷ param "$r10" "unsigned int flags"
        ∷ param "$r8" "struct sockaddr *addr"
        ∷ param "$r9" "int addr_len"
        ∷ [])
    ∷ row 0x2d "recvfrom" (
        param "$rdi" "int fd"
        ∷ param "$rsi" "void *ubuf"
        ∷ param "$rdx" "size_t size"
        ∷ param "$r10" "unsigned int flags"
        ∷ param "$r8" "struct sockaddr *addr"
        ∷ param "$r9" "int *addr_len"
        ∷ [])
    ∷ row 0x2e "sendmsg" (
        param "$rdi" "int fd"
        ∷ param "$rsi" "struct msghdr *msg"
        ∷ param "$rdx" "unsigned int flags"
        ∷ [])
    ∷ row 0x2f "recvmsg" (
        param "$rdi" "int fd"
        ∷ param "$rsi" "struct msghdr *msg"
        ∷ param "$rdx" "unsigned int flags"
        ∷ [])
    ∷ row 0x30 "shutdown" (param "$rdi" "int fd" ∷ param "$rsi" "int how" ∷ [])
    ∷ row 0x31 "bind" (
        param "$rdi" "int fd"
        ∷ param "$rsi" "struct sockaddr *umyaddr"
        ∷ param "$rdx" "int addrlen"
        ∷ [])
    ∷ row 0x32 "listen" (param "$rdi" "int fd" ∷ param "$rsi" "int backlog" ∷ [])
    ∷ row 0x33 "getsockname" (
        param "$rdi" "int fd"
        ∷ param "$rsi" "struct sockaddr *usockaddr"
        ∷ param "$rdx" "int *usockaddr_len"
        ∷ [])
    ∷ row 0x34 "getpeername" (
        param "$rdi" "int fd"
        ∷ param "$rsi" "struct sockaddr *usockaddr"
        ∷ param "$rdx" "int *usockaddr_len"
        ∷ [])
    ∷ row 0x35 "socketpair" (
        param "$rdi" "int family"
        ∷ param "$rsi" "int type"
        ∷ param "$rdx" "int protocol"
        ∷ param "$r10" "int *usockvec"
        ∷ [])
    ∷ row 0x36 "setsockopt" (
        param "$rdi" "int fd"
        ∷ param "$rsi" "int level"
        ∷ param "$rdx" "int optname"
        ∷ param "$r10" "char *optval"
        ∷ param "$r8" "int optlen"
        ∷ [])
    ∷ row 0x37 "getsockopt" (
        param "$rdi" "int fd"
        ∷ param "$rsi" "int level"
        ∷ param "$rdx" "int optname"
        ∷ param "$r10" "char *optval"
        ∷ param "$r8" "int *optlen"
        ∷ [])
    ∷ row 0x38 "clone" (
        param "$rdi" "unsigned long clone_flags"
        ∷ param "$rsi" "unsigned long newsp"
        ∷ param "$rdx" "void *parent_tid"
        ∷ param "$r10" "void *child_tid"
        ∷ [])
    ∷ row 0x39 "fork" ([])
    ∷ row 0x3a "vfork" ([])
    ∷ row 0x3b "execve" (
        param "$rdi" "const char *name"
        ∷ param "$rsi" "const char *const *argv"
        ∷ param "$rdx" "const char *const *envp"
        ∷ [])
    ∷ row 0x3c "exit" (param "$rdi" "int error_code" ∷ [])
    ∷ row 0x3d "wait4" (
        param "$rdi" "pid_t upid"
        ∷ param "$rsi" "int *stat_addr"
        ∷ param "$rdx" "int options"
        ∷ param "$r10" "struct rusage *ru"
        ∷ [])
    ∷ row 0x3e "kill" (param "$rdi" "pid_t pid" ∷ param "$rsi" "int sig" ∷ [])
    ∷ row 0x3f "uname" (param "$rdi" "struct old_utsname *name" ∷ [])
    ∷ []
