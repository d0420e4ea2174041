-- ===== src/SyscallArgs/Tables/X8632/From0.antt =====
-- scripts/syscall_args/syscall-tables/X86.py: the calls from 0x0 to 0x47.
use gef_extras.Common.{[], ◌∷◌}
use gef_extras.SyscallArgs.{Table}
use gef_extras.SyscallArgs.Tables.{row, param}

abbrev pub from_0 : Table
from_0 =
    row 0x0 "restart_syscall" ([])
    ∷ row 0x1 "exit" (param "$ebx" "int error_code" ∷ [])
    ∷ row 0x2 "fork" ([])
    ∷ row 0x3 "read" (
        param "$ebx" "unsigned int fd"
        ∷ param "$ecx" "char *buf"
        ∷ param "$edx" "size_t count"
        ∷ [])
    ∷ row 0x4 "write" (
        param "$ebx" "unsigned int fd"
        ∷ param "$ecx" "const char *buf"
        ∷ param "$edx" "size_t count"
        ∷ [])
    ∷ row 0x5 "open" (
        param "$ebx" "const char *filename"
        ∷ param "$ecx" "int flags"
        ∷ param "$edx" "umode_t mode"
        ∷ [])
    ∷ row 0x6 "close" (param "$ebx" "unsigned int fd" ∷ [])
    ∷ row 0x7 "waitpid"
        (param "$ebx" "pid_t pid" ∷ param "$ecx" "int *stat_addr" ∷ param "$edx" "int options" ∷ [])
    ∷ row 0x8 "creat" (param "$ebx" "const char *pathname" ∷ param "$ecx" "umode_t mode" ∷ [])
    ∷ row 0x9 "link" (param "$ebx" "const char *oldname" ∷ param "$ecx" "const char *newname" ∷ [])
    ∷ row 0xa "unlink" (param "$ebx" "const char *pathname" ∷ [])
    ∷ row 0xb "execve" (
        param "$ebx" "const char *name"
        ∷ param "$ecx" "const char *const *argv"
        ∷ param "$edx" "const char *const *envp"
        ∷ [])
    ∷ row 0xc "chdir" (param "$ebx" "const char *filename" ∷ [])
    ∷ row 0xd "time" (param "$ebx" "time_t *tloc" ∷ [])
    ∷ row 0xe "mknod" (
        param "$ebx" "const char *filename"
        ∷ param "$ecx" "umode_t mode"
        ∷ param "$edx" "unsigned dev"
        ∷ [])
    ∷ row 0xf "chmod" (param "$ebx" "const char *filename" ∷ param "$ecx" "umode_t mode" ∷ [])
    ∷ row 0x10 "lchown" (
        param "$ebx" "const char *filename"
        ∷ param "$ecx" "uid_t user"
        ∷ param "$edx" "gid_t group"
        ∷ [])
    ∷ row 0x12 "oldstat" (
        param "$ebx" "const char *filename" ∷ param "$ecx" "struct __old_kernel_stat *statbuf" ∷ [])
    ∷ row 0x13 "lseek" (
        param "$ebx" "unsigned int fd"
        ∷ param "$ecx" "off_t offset"
        ∷ param "$edx" "unsigned int origin"
        ∷ [])
    ∷ row 0x14 "getpid" ([])
    ∷ row 0x15 "mount" (
        param "$ebx" "char *dev_name"
        ∷ param "$ecx" "char *dir_name"
        ∷ param "$edx" "char *type"
        ∷ param "$esi" "unsigned long flags"
        ∷ param "$edi" "void *data"
        ∷ [])
    ∷ row 0x16 "umount" (param "$ebx" "char *name" ∷ param "$ecx" "int flags" ∷ [])
    ∷ row 0x17 "setuid" (param "$ebx" "uid_t uid" ∷ [])
    ∷ row 0x18 "getuid" ([])
    ∷ row 0x19 "stime" (param "$ebx" "time_t *tptr" ∷ [])
    ∷ row 0x1a "ptrace" (
        param "$ebx" "long request"
        ∷ param "$ecx" "long pid"
        ∷ param "$edx" "unsigned long addr"
        ∷ param "$esi" "unsigned long data"
        ∷ [])
    ∷ row 0x1b "alarm" (param "$ebx" "unsigned int seconds" ∷ [])
    ∷ row 0x1c "oldfstat"
        (param "$ebx" "unsigned int fd" ∷ param "$ecx" "struct __old_kernel_stat *statbuf" ∷ [])
    ∷ row 0x1d "pause" ([])
    ∷ row 0x1e "utime" (param "$ebx" "char *filename" ∷ param "$ecx" "struct utimbuf *times" ∷ [])
    ∷ row 0x21 "access" (param "$ebx" "const char *filename" ∷ param "$ecx" "int mode" ∷ [])
    ∷ row 0x22 "nice" (param "$ebx" "int increment" ∷ [])
    ∷ row 0x24 "sync" ([])
    ∷ row 0x25 "kill" (param "$ebx" "pid_t pid" ∷ param "$ecx" "int sig" ∷ [])
    ∷ row 0x26 "rename"
        (param "$ebx" "const char *oldname" ∷ param "$ecx" "const char *newname" ∷ [])
    ∷ row 0x27 "mkdir" (param "$ebx" "const char *pathname" ∷ param "$ecx" "umode_t mode" ∷ [])
    ∷ row 0x28 "rmdir" (param "$ebx" "const char *pathname" ∷ [])
    ∷ row 0x29 "dup" (param "$ebx" "unsigned int fildes" ∷ [])
    ∷ row 0x2a "pipe" (param "$ebx" "int *fildes" ∷ [])
    ∷ row 0x2b "times" (param "$ebx" "struct tms *tbuf" ∷ [])
    ∷ row 0x2d "brk" (param "$ebx" "unsigned long brk" ∷ [])
    ∷ row 0x2e "setgid" (param "$ebx" "gid_t gid" ∷ [])
    ∷ row 0x2f "getgid" ([])
    ∷ row 0x30 "signal" (param "$ebx" "int sig" ∷ param "$ecx" "__sighandler_t handler" ∷ [])
    ∷ row 0x31 "geteuid" ([])
    ∷ row 0x32 "getegid" ([])
    ∷ row 0x33 "acct" (param "$ebx" "const char *name" ∷ [])
    ∷ row 0x34 "umount2" (param "$ebx" "char *name" ∷ param "$ecx" "int flags" ∷ [])
    ∷ row 0x36 "ioctl" (
        param "$ebx" "unsigned int fd"
        ∷ param "$ecx" "unsigned int cmd"
        ∷ param "$edx" "unsigned long arg"
        ∷ [])
    ∷ row 0x37 "fcntl" (
        param "$ebx" "unsigned int fd"
        ∷ param "$ecx" "unsigned int cmd"
        ∷ param "$edx" "unsigned long arg"
        ∷ [])
    ∷ row 0x39 "setpgid" (param "$ebx" "pid_t pid" ∷ param "$ecx" "pid_t pgid" ∷ [])
    ∷ row 0x3b "oldolduname" (param "$ebx" "struct oldold_utsname *name" ∷ [])
    ∷ row 0x3c "umask" (param "$ebx" "int mask" ∷ [])
    ∷ row 0x3d "chroot" (param "$ebx" "const char *filename" ∷ [])
    ∷ row 0x3e "ustat" (param "$ebx" "unsigned dev" ∷ param "$ecx" "struct ustat *ubuf" ∷ [])
    ∷ row 0x3f "dup2" (param "$ebx" "unsigned int oldfd" ∷ param "$ecx" "unsigned int newfd" ∷ [])
    ∷ row 0x40 "getppid" ([])
    ∷ row 0x41 "getpgrp" ([])
    ∷ row 0x42 "setsid" ([])
    ∷ row 0x43 "sigaction" (
        param "$ebx" "int sig"
        ∷ param "$ecx" "const struct old_sigaction *act"
        ∷ param "$edx" "struct old_sigaction *oact"
        ∷ [])
    ∷ row 0x44 "sgetmask" ([])
    ∷ row 0x45 "ssetmask" (param "$ebx" "int newmask" ∷ [])
    ∷ row 0x46 "setreuid" (param "$ebx" "uid_t ruid" ∷ param "$ecx" "uid_t euid" ∷ [])
    ∷ row 0x47 "setregid" (param "$ebx" "gid_t rgid" ∷ param "$ecx" "gid_t egid" ∷ [])
    ∷ []
